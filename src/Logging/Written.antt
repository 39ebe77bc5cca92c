-- ===== src/Logging/Written.antt =====
-- What a call writes.
use summer.Prelude.{ℕ, ◌≡◌, refl, arith, Bool, true, false, leb, [], ◌∷◌, ◌++◌, append_assoc}
use summer.Decimal.{Text, decimal, Without, Without-append, Without-decimal}
use summer.Logging.{
  LogLevel, message_head, Site, Logger, new_impl, new_info, new_level, new_func, new_sys, put,
  finish, destroy, is_fatal, Macro, log_info, log_debug, log_warn, log_error, log_syserr, log_fatal,
  log_sysfatal, log_trace, log, rank,
}
use summer.Logging.Plain.{
  joined, IsPlain, Without-base_from, Without-message_head, Without-errno_text,
}

-- A logger whose line is not ended yet.
abbrev IsOpen : Logger → Type 0
IsOpen l = Without 10 l.stream × Without 10 l.base

new_impl-IsOpen :
    (site : Site) (level : LogLevel) (errno : ℕ) → IsPlain site → IsOpen (new_impl site level errno)
unfolding new_impl
new_impl-IsOpen site level errno p = (
  Without-append 10 (message_head site level) _ (Without-message_head site level)
      (Without-errno_text site errno p),
  Without-base_from 10 site.file site.file p.file p.file,
)

-- What is written is one line.
abbrev pub IsLine : Text → Type 0
IsLine t = (body : Text) × Without 10 body × (t ≡ body ++ (10 ∷ []))

destroy-IsLine :
    (l : Logger) (text : Text) → IsOpen l → Without 10 text → IsLine (destroy (put l text)).0
unfolding destroy finish
destroy-IsLine l text (hs, hb) ht =
    let ending = b' ' ∷ b':' ∷ b' ' ∷ decimal l.line in
    let tail = b' ' ∷ b'-' ∷ b' ' ∷ (l.base ++ ending) in
    (
      (l.stream ++ text) ++ tail,
      Without-append 10 (l.stream ++ text) tail (Without-append 10 l.stream text hs ht) (
          Without-append 10 (b' ' ∷ b'-' ∷ b' ' ∷ []) (l.base ++ ending) (ground arith) (
            Without-append 10 l.base ending hb (
              Without-append 10 (b' ' ∷ b':' ∷ b' ' ∷ []) (decimal l.line) (ground arith)
                (Without-decimal 10 l.line (omega arith))))),
      rw (append_assoc (l.stream ++ text) tail (10 ∷ []), append_assoc l.base ending (10 ∷ []))
          refl,
    )

-- A text can be added to a logger that is open.
new_func-IsOpen : (site : Site) (level : LogLevel) → IsPlain site → IsOpen (new_func site level)
unfolding new_func
new_func-IsOpen site level p =
    let (hs, hb) = new_impl-IsOpen site level 0 p in
    (
      Without-append 10 (new_impl site level 0).stream _ hs (joined site.func [] _ p.func refl tt),
      hb,
    )

abbrev pub is_aborting : Macro → Bool
is_aborting log_fatal = true
is_aborting log_sysfatal = true
is_aborting _ = false

-- The call is made at this level.
abbrev pub is_on : LogLevel → Macro → Bool
is_on g_log_level log_trace = leb (rank g_log_level) 0
is_on g_log_level _ = true

impl-IsLine :
    (site : Site) (level : LogLevel) (errno : ℕ) (text : Text)
    → IsPlain site
    → Without 10 text
    → IsLine (destroy (put (new_impl site level errno) text)).0
impl-IsLine site level errno text p h =
    destroy-IsLine (new_impl site level errno) text (new_impl-IsOpen site level errno p) h

func-IsLine :
    (site : Site) (level : LogLevel) (text : Text)
    → IsPlain site
    → Without 10 text
    → IsLine (destroy (put (new_func site level) text)).0
func-IsLine site level text p h =
    destroy-IsLine (new_func site level) text (new_func-IsOpen site level p) h

destroy-level : (l : Logger) → (destroy l).1 ≡ is_fatal l.level
unfolding destroy
destroy-level l = refl

on-IsLine :
    (g_log_level : LogLevel) (site : Site) (m : Macro) (text : Text)
    → IsPlain site
    → Without 10 text
    → is_on g_log_level m ≡ true
    → IsLine (log g_log_level site m text).0
unfolding log new_info new_level new_sys
on-IsLine g site log_info text p h on = impl-IsLine site _ 0 text p h
on-IsLine g site log_trace text p h on = rw on (func-IsLine site _ text p h)
on-IsLine g site log_debug text p h on = func-IsLine site _ text p h
on-IsLine g site log_warn text p h on = impl-IsLine site _ 0 text p h
on-IsLine g site log_error text p h on = impl-IsLine site _ 0 text p h
on-IsLine g site log_fatal text p h on = impl-IsLine site _ 0 text p h
on-IsLine g site log_syserr text p h on = impl-IsLine site _ site.errno text p h
on-IsLine g site log_sysfatal text p h on = impl-IsLine site _ site.errno text p h

aborts :
    (g_log_level : LogLevel) (site : Site) (m : Macro) (text : Text)
    → (log g_log_level site m text).1 ≡ is_aborting m
unfolding log new_info new_level new_sys new_func new_impl destroy finish
aborts g site m text = ground arith

off :
    (g_log_level : LogLevel) (site : Site) (m : Macro) (text : Text)
    → is_on g_log_level m ≡ false
    → (log g_log_level site m text).0 ≡ []
unfolding log
off g site m text h = ground (arith, h)

-- Where the texts have no end of a line in them, each call writes just one line, but LOG_TRACE nothing when
-- the level is above TRACE; behind it LOG_FATAL and LOG_SYSFATAL abort, and no other does.
pub log-IsLine :
    (g_log_level : LogLevel) (site : Site) (m : Macro) (text : Text)
    → IsPlain site
    → Without 10 text
    → (is_on g_log_level m ≡ true → IsLine (log g_log_level site m text).0)
      × (is_on g_log_level m ≡ false → (log g_log_level site m text).0 ≡ [])
      × ((log g_log_level site m text).1 ≡ is_aborting m)
log-IsLine g site m text p h =
    (on-IsLine g site m text p h, off g site m text, aborts g site m text)
