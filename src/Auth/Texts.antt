-- ===== src/Auth/Texts.antt =====
-- The two kinds of text that internal/auth makes up, session ids and refresh tokens, never meet.
use Prim.Native.String.{◌++◌ as append}
use text.Mathlib.TextLemmas.{append_inj, append_assoc}
use cyandie_backend.Common.{String, false, ◌≡◌, ◌≢◌, refl, sym, str_eq, str_eq_iff, false≢true, ◌∙◌}

sess≢ref : str_eq "sess" "ref_" ≡ false
sess≢ref = refl

pub session_id≢refresh_token : (n h : String) → append "sess_" n ≢ append "ref_" h
session_id≢refresh_token n h = λ e.
    let same =
      append_inj {s₁ = "sess"} {s₂ = "ref_"} {t₁ = append "_" n} {t₂ = h}
        (sym (append_assoc "sess" "_" n) ∙ e) refl in
    false≢true (sym sess≢ref ∙ (str_eq_iff "sess" "ref_").1 same.0)
