-- ===== src/Security/Unescaped.antt =====
-- src/security/injection-sanitizer.ts: an escaped source is read back as it was.
use jin_core.Security.Escaped.{
  put, append-put, char_cases, one, mapped_same, mapped, escape_source-mapped,
}
use Prim.Native.Char.{Char, code}
use jin_core.Security.Sanitizer.{escape_source, unescape_delimiter_chars, is_prefix, replace_text}
use jin_core.Base.{◌∙◌, ap, refl, arith, false, ◌==◌, inr, inl, ◌≡◌, String}

not_amp : (c : Char) → (code c == b'&') ≡ false → (b'&' == code c) ≡ false
not_amp c h = ground arith

-- one `replace` of the way back after the other
-- one `replace` of the way back after the other
-- one `replace` of the way back after the other
unescape_lt :
    (s : String)
    → replace_text "&lt;" 3 "<" 0 (mapped "&lt;" "&gt;" "&quot;" "&amp;" s)
      ≡ mapped "<" "&gt;" "&quot;" "&amp;" s
unfolding mapped one replace_text is_prefix
unescape_lt String.[] = refl
unescape_lt (String.◌∷◌ c s) = elim (char_cases c) [
  | inl e ↦ rw e (ap (put "&amp;") (unescape_lt s))
  | inr (inl e) ↦ rw e (append-put "<" _ ∙ ap (put "<") (unescape_lt s))
  | inr (inr (inl e)) ↦ rw e (ap (put "&gt;") (unescape_lt s))
  | inr (inr (inr (inl e))) ↦ rw e (ap (put "&quot;") (unescape_lt s))
  | inr (inr (inr (inr (amp, lt, gt, quot)))) ↦
      rw (amp, lt, gt, quot, not_amp c amp) (ap (λ r. String.◌∷◌ c r) (unescape_lt s))
]

unescape_gt :
    (s : String)
    → replace_text "&gt;" 3 ">" 0 (mapped "<" "&gt;" "&quot;" "&amp;" s)
      ≡ mapped "<" ">" "&quot;" "&amp;" s
unfolding mapped one replace_text is_prefix
unescape_gt String.[] = refl
unescape_gt (String.◌∷◌ c s) = elim (char_cases c) [
  | inl e ↦ rw e (ap (put "&amp;") (unescape_gt s))
  | inr (inl e) ↦ rw e (ap (put "<") (unescape_gt s))
  | inr (inr (inl e)) ↦ rw e (append-put ">" _ ∙ ap (put ">") (unescape_gt s))
  | inr (inr (inr (inl e))) ↦ rw e (ap (put "&quot;") (unescape_gt s))
  | inr (inr (inr (inr (amp, lt, gt, quot)))) ↦
      rw (amp, lt, gt, quot, not_amp c amp) (ap (λ r. String.◌∷◌ c r) (unescape_gt s))
]

unescape_quot :
    (s : String)
    → replace_text "&quot;" 5 "\"" 0 (mapped "<" ">" "&quot;" "&amp;" s)
      ≡ mapped "<" ">" "\"" "&amp;" s
unfolding mapped one replace_text is_prefix
unescape_quot String.[] = refl
unescape_quot (String.◌∷◌ c s) = elim (char_cases c) [
  | inl e ↦ rw e (ap (put "&amp;") (unescape_quot s))
  | inr (inl e) ↦ rw e (ap (put "<") (unescape_quot s))
  | inr (inr (inl e)) ↦ rw e (ap (put ">") (unescape_quot s))
  | inr (inr (inr (inl e))) ↦ rw e (append-put "\"" _ ∙ ap (put "\"") (unescape_quot s))
  | inr (inr (inr (inr (amp, lt, gt, quot)))) ↦
      rw (amp, lt, gt, quot, not_amp c amp) (ap (λ r. String.◌∷◌ c r) (unescape_quot s))
]

unescape_amp :
    (s : String)
    → replace_text "&amp;" 4 "&" 0 (mapped "<" ">" "\"" "&amp;" s) ≡ mapped "<" ">" "\"" "&" s
unfolding mapped one replace_text is_prefix
unescape_amp String.[] = refl
unescape_amp (String.◌∷◌ c s) = elim (char_cases c) [
  | inl e ↦ rw e (append-put "&" _ ∙ ap (put "&") (unescape_amp s))
  | inr (inl e) ↦ rw e (ap (put "<") (unescape_amp s))
  | inr (inr (inl e)) ↦ rw e (ap (put ">") (unescape_amp s))
  | inr (inr (inr (inl e))) ↦ rw e (ap (put "\"") (unescape_amp s))
  | inr (inr (inr (inr (amp, lt, gt, quot)))) ↦
      rw (amp, lt, gt, quot, not_amp c amp) (ap (λ r. String.◌∷◌ c r) (unescape_amp s))
]

-- The way back from an escaped source gives the source, whatever characters it has.
pub unescape-escape_source : (s : String) → unescape_delimiter_chars (escape_source s) ≡ s
unfolding unescape_delimiter_chars
unescape-escape_source s =
    rw (escape_source-mapped s, unescape_lt s, unescape_gt s, unescape_quot s, unescape_amp s)
      (mapped_same s)
