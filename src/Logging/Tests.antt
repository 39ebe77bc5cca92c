-- ===== src/Logging/Tests.antt =====
-- A call that logs, and the theorems about it.
use summer.Prelude.{◌≡◌, arith, true, false, [], ◌∷◌, ◌++◌}
use summer.Decimal.{Text}
use summer.Logging.{debug, Site, base_name, log_sysfatal, log}
use summer.Logging.Names.{base_name-last}
use summer.Logging.Plain.{IsPlain}
use summer.Logging.Written.{is_on, is_aborting, IsLine, log-IsLine}

abbrev name : Text
name = b'T' ∷ b'.' ∷ b'c' ∷ []

abbrev site : Site
site = record {
  file = b'b' ∷ b'/' ∷ name;
  line = 7;
  func = b'f' ∷ [];
  gmtime = λ seconds. record { year = 70; mon = 0; mday = 1; hour = 0; min = 0; sec = 3 };
  now = 3000042;
  tid = 12;
  errno = 2;
  strerror = λ errno. b'E' ∷ [];
}

site-IsPlain : IsPlain site
site-IsPlain = record { file = ground arith; func = ground arith; strerror = λ errno. ground arith }

base_name-last_example : (base_name ((b'b' ∷ []) ++ (b'/' ∷ name)) ≡ name) × (base_name name ≡ name)
base_name-last_example = base_name-last (b'b' ∷ []) name (ground arith)

log-IsLine_example :
    (is_on debug log_sysfatal ≡ true → IsLine (log debug site log_sysfatal (b'x' ∷ [])).0)
    × (is_on debug log_sysfatal ≡ false → (log debug site log_sysfatal (b'x' ∷ [])).0 ≡ [])
    × ((log debug site log_sysfatal (b'x' ∷ [])).1 ≡ is_aborting log_sysfatal)
log-IsLine_example = log-IsLine debug site log_sysfatal (b'x' ∷ []) site-IsPlain (ground arith)
