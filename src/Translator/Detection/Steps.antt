-- ===== src/Translator/Detection/Steps.antt =====
-- The single steps of the loop of `strip_sql_comments_for_detection`.
use exa_postgres_interface.Base.{ℕ, ◌==◌, Bool, false, ◌&&◌, [], ◌∷◌, ◌≡◌, refl}
use exa_postgres_interface.Base.Text.{Text}
use exa_postgres_interface.Translator.Detection.{Mode, behind, closed_by, strip_from}

abbrev pub starts : ℕ → Text → Bool
starts b [] = false
starts b (c ∷ s) = c == b

abbrev pub pair : ℕ → ℕ → ℕ → Text → Bool
pair a b c s = c == a && starts b s

pub outside-step :
    (c : ℕ) (s : Text)
    → pair b'-' b'-' c s ≡ false
    → pair b'/' b'*' c s ≡ false
    → strip_from Mode.outside (c ∷ s) ≡ c ∷ strip_from (behind c) s
outside-step c [] p q = refl
outside-step c (d ∷ s) p q = rw (p, strip_from) (rw (q, strip_from) refl)

pub single-step :
    (c : ℕ) (s : Text)
    → pair b'\'' b'\'' c s ≡ false
    → strip_from Mode.single_quote (c ∷ s) ≡ c ∷ strip_from (closed_by b'\'' c Mode.single_quote) s
single-step c [] p = refl
single-step c (d ∷ s) p = rw (p, strip_from) refl

pub double-step :
    (c : ℕ) (s : Text)
    → pair b'"' b'"' c s ≡ false
    → strip_from Mode.double_quote (c ∷ s) ≡ c ∷ strip_from (closed_by b'"' c Mode.double_quote) s
double-step c [] p = refl
double-step c (d ∷ s) p = rw (p, strip_from) refl
