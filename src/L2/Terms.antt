-- ===== src/L2/Terms.antt =====
-- What a terms digest binds, and what its separator leaves open.
use nexum.Errors.{ok}
use Prim.Native.String.{◌++◌ as ◌<>◌}
use mathlib.Core.List.{append_assoc, append-nil}
use mathlib.Core.Path.{ap₂}
use nexum.Prelude.{ℕ, String, ◌≡◌, ◌≢◌, refl, sym, ap, ◌∙◌, List, [], ◌∷◌, ◌++◌, some, arith}
use nexum.Std.{Std, Bytes, text_bytes}
use nexum.Std.Texts.{text_bytes-append, text_bytes-inj}
use nexum.Agreement.{Agreement}
use nexum.L2.{Codec, terms_field, unit_text, terms_bytes, terms_digest}

-- The texts that a terms digest is taken of, in order.
abbrev pub terms_texts : Std → Codec → Agreement → List String
terms_texts std codec a =
    a.id
    ∷ a.kind
    ∷ a.buyer
    ∷ a.seller
    ∷ std.decimal a.amount
    ∷ unit_text a.unit
    ∷ codec.format_float a.meter.cost_usd
    ∷ a.meter.effort
    ∷ codec.format_float a.meter.budget_usd
    ∷ std.decimal a.meter.max_steps
    ∷ std.rfc3339_nano a.created_at
    ∷ std.rfc3339_nano a.deadline
    ∷ []

-- Texts written one after the other.
abbrev joined : List String → Bytes
joined [] = []
joined (s ∷ ss) = terms_field s ++ joined ss

-- No byte is zero, and no text of a list has one.
abbrev pub NoZero : Bytes → Type 0
NoZero [] = Unit
NoZero (b ∷ bs) = (b ≢ 0) × NoZero bs

abbrev pub NulFree : List String → Type 0
NulFree [] = Unit
NulFree (s ∷ ss) = NoZero (text_bytes s) × NulFree ss

-- The first zero ends a field.
field_inj :
    (as_ bs cs ds : Bytes)
    → NoZero as_
    → NoZero bs
    → as_ ++ 0 ∷ cs ≡ bs ++ 0 ∷ ds
    → (as_ ≡ bs) × (cs ≡ ds)
field_inj [] [] cs ds h k e = (refl, cc)
field_inj [] (b ∷ bs) cs ds h k e = absurd (k.0 (cc))
field_inj (a ∷ as_) [] cs ds h k e = absurd (h.0 (cc))
field_inj (a ∷ as_) (b ∷ bs) cs ds h k e = ground (arith, field_inj as_ bs cs ds h.1 k.1 (cc))

nil_ne_cons : {b : ℕ} {bs : Bytes} → [] ≢ b ∷ bs
nil_ne_cons e = ground (arith, e)

field_ne_nil : (bs cs : Bytes) → [] ≢ (bs ++ 0 ∷ []) ++ cs
field_ne_nil [] cs e = absurd (nil_ne_cons e)
field_ne_nil (b ∷ bs) cs e = absurd (nil_ne_cons e)

joined-inj : (ss ts : List String) → NulFree ss → NulFree ts → joined ss ≡ joined ts → ss ≡ ts
joined-inj [] [] h k e = refl
joined-inj [] (t ∷ ts) h k e = absurd (field_ne_nil (text_bytes t) (joined ts) e)
joined-inj (s ∷ ss) [] h k e = absurd (field_ne_nil (text_bytes s) (joined ss) (sym e))
joined-inj (s ∷ ss) (t ∷ ts) h k e =
    let (first, rest) = field_inj (text_bytes s) (text_bytes t) (joined ss) (joined ts) h.0 k.0 (
      sym (append_assoc (text_bytes s) (0 ∷ []) (joined ss))
      ∙ e
      ∙ append_assoc (text_bytes t) (0 ∷ []) (joined ts)) in
    ap₂ (λ x l. x ∷ l) (text_bytes-inj s t first) (joined-inj ss ts h.1 k.1 rest)

module _ (std : Std) (codec : Codec) where
  terms_bytes-joined : (a : Agreement) → terms_bytes std codec a ≡ joined (terms_texts std codec a)
  unfolding terms_bytes
  terms_bytes-joined a = simp append-nil

  -- Where no text of the terms holds a zero character, the bytes that are hashed determine the texts.
  pub terms_texts-inj :
      (a b : Agreement)
      → NulFree (terms_texts std codec a)
      → NulFree (terms_texts std codec b)
      → terms_bytes std codec a ≡ terms_bytes std codec b
      → terms_texts std codec a ≡ terms_texts std codec b
  terms_texts-inj a b h k same =
      joined-inj (terms_texts std codec a) (terms_texts std codec b) h k
        (sym (terms_bytes-joined a) ∙ same ∙ terms_bytes-joined b)

  shift_nul :
      (x y z : String) (rest : Bytes)
      → terms_field (x <> ("\0" <> y)) ++ (terms_field z ++ rest)
        ≡ terms_field x ++ (terms_field (y <> ("\0" <> z)) ++ rest)
  shift_nul x y z rest = simp (text_bytes-append, append_assoc)

  -- The separator is ambiguous: a zero character in an id or a kind moves the boundary between them. The
  -- agreements with the id x\0y and the kind z, and with the id x and the kind y\0z, have one
  -- TermsDigest.
  pub terms_digest_ambiguous :
      (a : Agreement) (x y z : String)
      → terms_digest std codec (some (record a { id = x <> ("\0" <> y); kind = z }))
        ≡ terms_digest std codec (some (record a { id = x; kind = y <> ("\0" <> z) }))
  unfolding terms_digest terms_bytes
  terms_digest_ambiguous a x y z = ap (λ b. ok (codec.keccak b)) (shift_nul x y z _)
