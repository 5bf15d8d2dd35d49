-- ===== src/Std/Texts.antt =====
-- The bytes of texts: of a joined text, and of equal bytes.
use Prim.Native.Char.{code}
use Prim.Native.String.{◌++◌ as ◌<>◌}
use text.Mathlib.TextLemmas.{nil-append, cons-append}
use text.Mathlib.TextEquality.{Char-path}
use mathlib.Core.List.{append_assoc}
use mathlib.Core.Path.{ap₂}
use nexum.Prelude.{
  ℕ, ◌+◌, ◌-◌, ◌*◌, String, ◌≡◌, ◌≢◌, refl, sym, ap, [], ◌∷◌, ◌++◌, ◌∙◌, ltb, if◌then◌else◌, arith,
}
use nexum.Std.{Bytes, utf8, text_bytes}

pub text_bytes-append : (s t : String) → text_bytes (s <> t) ≡ text_bytes s ++ text_bytes t
text_bytes-append String.[] t = rw (nil-append t) refl
text_bytes-append (String.◌∷◌ c s) t =
    ap text_bytes (cons-append c s t)
    ∙ ap (λ l. utf8 (code c) ++ l) (text_bytes-append s t)
    ∙ sym (append_assoc (utf8 (code c)) (text_bytes s) (text_bytes t))

-- The character that bytes start with, and the bytes behind it.
abbrev two : ℕ → Bytes → ℕ × Bytes
two a (b ∷ rest) = ((a - 192) * 64 + (b - 128), rest)
two a _ = (0, [])

abbrev three : ℕ → Bytes → ℕ × Bytes
three a (b ∷ c ∷ rest) = (((a - 224) * 64 + (b - 128)) * 64 + (c - 128), rest)
three a _ = (0, [])

abbrev four : ℕ → Bytes → ℕ × Bytes
four a (b ∷ c ∷ d ∷ rest) = ((((a - 240) * 64 + (b - 128)) * 64 + (c - 128)) * 64 + (d - 128), rest)
four a _ = (0, [])

abbrev decoded : Bytes → ℕ × Bytes
decoded [] = (0, [])
decoded (a ∷ rest) =
    if ltb a 128
    then (a, rest)
    else if ltb a 224
    then two a rest
    else if ltb a 240
    then three a rest
    else four a rest

decoded-utf8 : (c : ℕ) (rest : Bytes) → decoded (utf8 c ++ rest) ≡ (c, rest)
decoded-utf8 c rest = ground arith

utf8-ne-nil : (c : ℕ) (rest : Bytes) → utf8 c ++ rest ≢ []
utf8-ne-nil c rest e = ground (arith, e)

utf8-inj : (c d : ℕ) (xs ys : Bytes) → utf8 c ++ xs ≡ utf8 d ++ ys → (c ≡ d) × (xs ≡ ys)
utf8-inj c d xs ys h = (
  sym (ap (λ p. p.0) (decoded-utf8 c xs))
      ∙ ap (λ b. (decoded b).0) h
      ∙ ap (λ p. p.0) (decoded-utf8 d ys),
  sym (ap (λ p. p.1) (decoded-utf8 c xs))
      ∙ ap (λ b. (decoded b).1) h
      ∙ ap (λ p. p.1) (decoded-utf8 d ys),
)

pub text_bytes-inj : (s t : String) → text_bytes s ≡ text_bytes t → s ≡ t
text_bytes-inj String.[] String.[] h = refl
text_bytes-inj String.[] (String.◌∷◌ d t) h = absurd (utf8-ne-nil (code d) (text_bytes t) (sym h))
text_bytes-inj (String.◌∷◌ c s) String.[] h = absurd (utf8-ne-nil (code c) (text_bytes s) h)
text_bytes-inj (String.◌∷◌ c s) (String.◌∷◌ d t) h =
    let (codes, rests) = utf8-inj (code c) (code d) (text_bytes s) (text_bytes t) h in
    ap₂ String.◌∷◌ (Char-path c d codes) (text_bytes-inj s t rests)
