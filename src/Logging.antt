-- ===== src/Logging.antt =====
-- The logging of base/Logging.h and base/Logging.cc: what a call writes, and when it aborts. The clock,
-- the calendar, the thread number, `errno` and `strerror_r` are fields of the place that logs.
pub mod Names
pub mod Plain
pub mod Written
mod Tests
use summer.Prelude.{
  ℕ, zero, suc, ◌+◌, Bool, true, false, ◌==◌, leb, if◌then◌else◌, List, [], ◌∷◌, ◌++◌, take,
}
use summer.Decimal.{Text, decimal, padded}
use summer.Timestamp.{Tm, to_format_string}

pub data LogLevel : Type 0 where
  trace debug info warn error fatal : LogLevel

-- `logLevelName`
unfoldable pub log_level_name : LogLevel → Text
log_level_name trace = b'T' ∷ b'R' ∷ b'A' ∷ b'C' ∷ b'E' ∷ []
log_level_name debug = b'D' ∷ b'E' ∷ b'B' ∷ b'U' ∷ b'G' ∷ []
log_level_name info = b'I' ∷ b'N' ∷ b'F' ∷ b'O' ∷ []
log_level_name warn = b'W' ∷ b'A' ∷ b'R' ∷ b'N' ∷ []
log_level_name error = b'E' ∷ b'R' ∷ b'R' ∷ b'O' ∷ b'R' ∷ []
log_level_name fatal = b'F' ∷ b'A' ∷ b'T' ∷ b'A' ∷ b'l' ∷ []

abbrev pub rank : LogLevel → ℕ
rank trace = 0
rank debug = 1
rank info = 2
rank warn = 3
rank error = 4
rank fatal = 5

-- By whether SUMMER_LOG_TRACE is in the environment.
unfoldable pub init_log_level : Bool → LogLevel
init_log_level true = trace
init_log_level false = debug

-- Where a call stands and what the system answers there.
pub record Site : Type 0 where
  pub file : Text
  pub line : ℕ
  pub func : Text
  pub gmtime : ℕ → Tm
  pub now : ℕ
  pub tid : ℕ
  pub errno : ℕ
  pub strerror : ℕ → Text

-- `strrchr` and the choice behind it: what stands behind the last slash, or else everything. The second
-- text is what stands behind the last slash so far.
unfoldable pub base_from : Text → Text → Text
base_from base [] = base
base_from base (x ∷ t) =
    let later = base_from t t in let same = base_from base t in if x == b'/' then later else same

abbrev pub base_name : Text → Text
base_name file = base_from file file

pub record Logger : Type 0 where
  pub level : LogLevel
  pub base : Text
  pub line : ℕ
  pub stream : Text

-- `message_head`, which is cut to 511 characters.
unfoldable pub message_head : Site → LogLevel → Text
message_head site level = take 511 (
    to_format_string site.gmtime site.now
    ++ (b' '
        ∷ (padded b' ' 5 (decimal site.tid) ++ (b' ' ∷ (log_level_name level ++ (b' ' ∷ []))))))

abbrev pub errno_open : Text
errno_open = b'(' ∷ b'e' ∷ b'r' ∷ b'r' ∷ b'n' ∷ b'o' ∷ b' ' ∷ b'=' ∷ b' ' ∷ []

unfoldable pub errno_text : Site → ℕ → Text
errno_text site saved_errno =
    if saved_errno == 0
    then []
    else site.strerror saved_errno ++ (errno_open ++ (decimal saved_errno ++ (b')' ∷ b' ' ∷ [])))

-- The constructor of LoggingImpl.
unfoldable pub new_impl : Site → LogLevel → ℕ → Logger
new_impl site level saved_errno = record {
  level = level;
  base = base_name site.file;
  line = site.line;
  stream = message_head site level ++ errno_text site saved_errno;
}

-- The four constructors of Logger.
unfoldable pub new_info : Site → Logger
new_info site = new_impl site info 0

unfoldable pub new_level : Site → LogLevel → Logger
new_level site level = new_impl site level 0

unfoldable pub new_func : Site → LogLevel → Logger
new_func site level =
    let l = new_impl site level 0 in record l { stream = l.stream ++ (site.func ++ (b' ' ∷ [])) }

unfoldable pub new_sys : Site → Bool → Logger
new_sys site to_abort = new_impl site (if to_abort then fatal else error) site.errno

abbrev pub put : Logger → Text → Logger
put l text = record l { stream = l.stream ++ text }

unfoldable pub finish : Logger → Logger
finish l =
    put l (b' ' ∷ b'-' ∷ b' ' ∷ (l.base ++ (b' ' ∷ b':' ∷ b' ' ∷ (decimal l.line ++ (b'\n' ∷ [])))))

abbrev pub is_fatal : LogLevel → Bool
is_fatal fatal = true
is_fatal _ = false

-- `~Logger`: what it writes to the standard output, and whether it aborts then.
unfoldable pub destroy : Logger → Text × Bool
destroy l = ((finish l).stream, is_fatal l.level)

pub data Macro : Type 0 where
  log_info log_trace log_debug log_warn log_error log_fatal log_syserr log_sysfatal : Macro

-- A macro with the text that follows it, at the level `g_logLevel`.
unfoldable pub log : LogLevel → Site → Macro → Text → Text × Bool
log g_log_level site log_info text = destroy (put (new_info site) text)
log g_log_level site log_trace text =
    if leb (rank g_log_level) (rank trace)
    then destroy (put (new_func site trace) text)
    else ([], false)
log g_log_level site log_debug text = destroy (put (new_func site debug) text)
log g_log_level site log_warn text = destroy (put (new_level site warn) text)
log g_log_level site log_error text = destroy (put (new_level site error) text)
log g_log_level site log_fatal text = destroy (put (new_level site fatal) text)
log g_log_level site log_syserr text = destroy (put (new_sys site false) text)
log g_log_level site log_sysfatal text = destroy (put (new_sys site true) text)
