-- ===== src/Logging/Plain.antt =====
-- The parts of a line have no end of a line in them.
use summer.Prelude.{
  ℕ, zero, suc, ◌+◌, ◌≡◌, ◌≢◌, refl, arith, ◌-◌, ◌%◌, ◌/◌, length, false, ◌==◌, inl, inr,
  Bool-cases, [], ◌∷◌, ◌++◌, take,
}
use summer.Decimal.{Text, decimal, padded, Without, Without-append, Without-decimal, fills}
use summer.Timestamp.{Tm, to_format_string, date_text, micro_second_per_second}
use summer.Logging.{LogLevel, log_level_name, message_head, errno_open, errno_text, Site, base_from}

Without-fills : (c f n : ℕ) → f ≢ c → Without c (fills f n)
unfolding fills
Without-fills c f zero h = tt
Without-fills c f (suc n) h = (h, Without-fills c f n h)

Without-padded : (c f width : ℕ) (t : Text) → f ≢ c → Without c t → Without c (padded f width t)
unfolding padded
Without-padded c f width t h k =
    Without-append c (fills f (width - length t)) t (Without-fills c f (width - length t) h) k

Without-take : (c n : ℕ) (t : Text) → Without c t → Without c (take n t)
Without-take c zero t h = tt
Without-take c (suc n) [] h = tt
Without-take c (suc n) (x ∷ t) (d, h) = (d, Without-take c n t h)

-- The end of a line does not stand in a number, whatever is put before it to fill.
plain : (f width n : ℕ) → (f == 10) ≡ false → Without 10 (padded f width (decimal n))
plain f width n h =
    Without-padded 10 f width (decimal n) (λ e. absurd (ground (arith, h, e)))
      (Without-decimal 10 n (omega arith))

pub joined :
    (s t : Text) (x : ℕ)
    → Without 10 s
    → (x == 10) ≡ false
    → Without 10 t
    → Without 10 (s ++ (x ∷ t))
joined s t x hs d ht = Without-append 10 s (x ∷ t) hs (λ e. absurd (ground (arith, d, e)), ht)

Without-date_text : (t : Tm) (microseconds : ℕ) → Without 10 (date_text t microseconds)
unfolding date_text
Without-date_text t microseconds = joined _ _ _ (plain b' ' 4 (t.year + 1900) refl) refl (
    joined _ _ _ (plain b'0' 2 (t.mon + 1) refl) refl (
      joined _ _ _ (plain b'0' 2 t.mday refl) refl (
        joined _ _ _ (plain b'0' 2 t.hour refl) refl (
          joined _ _ _ (plain b'0' 2 t.min refl) refl
            (joined _ _ _ (plain b'0' 2 t.sec refl) refl (plain b'0' 6 microseconds refl))))))

Without-to_format_string : (gmtime : ℕ → Tm) (time : ℕ) → Without 10 (to_format_string gmtime time)
unfolding to_format_string
Without-to_format_string gmtime time =
    Without-take 10 30
      (date_text (gmtime (time / micro_second_per_second)) (time % micro_second_per_second))
      (Without-date_text (gmtime (time / micro_second_per_second)) (time % micro_second_per_second))

Without-log_level_name : (level : LogLevel) → Without 10 (log_level_name level)
unfolding log_level_name
Without-log_level_name level = ground arith

pub Without-base_from :
    (c : ℕ) (base t : Text) → Without c base → Without c t → Without c (base_from base t)
unfolding base_from
Without-base_from c base [] hb h = hb
Without-base_from c base (x ∷ t) hb (d, h) =
    ground (arith, Without-base_from c t t h h, Without-base_from c base t hb h)

-- The texts of a place have no end of a line in them.
pub record IsPlain (site : Site) : Type 0 where
  pub file : Without 10 site.file
  pub func : Without 10 site.func
  pub strerror : (errno : ℕ) → Without 10 (site.strerror errno)

pub Without-message_head : (site : Site) (level : LogLevel) → Without 10 (message_head site level)
unfolding message_head
Without-message_head site level = Without-take 10 511 _ (
    joined _ _ _ (Without-to_format_string site.gmtime site.now) refl (
      joined _ _ _ (plain b' ' 5 site.tid refl) refl
        (joined _ _ _ (Without-log_level_name level) refl tt)))

pub Without-errno_text :
    (site : Site) (errno : ℕ) → IsPlain site → Without 10 (errno_text site errno)
unfolding errno_text
Without-errno_text site errno p = elim (Bool-cases (errno == 0)) [
  | inl e ↦ rw e tt
  | inr e ↦ rw e (
      Without-append 10 (site.strerror errno) _ (p.strerror errno) (
        Without-append 10 errno_open _ (ground arith)
          (joined _ _ _ (Without-decimal 10 errno (omega arith)) refl (ground arith))))
]
