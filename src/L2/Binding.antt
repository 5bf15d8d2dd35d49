-- ===== src/L2/Binding.antt =====
-- What a sealed root says of the agreements beneath it.
use nexum.Prelude.{
  String, ◌≡◌, ◌≢◌, ◌⊎◌, inl, inr, sym, ap, ◌∙◌, List, [], ◌∷◌, ◌++◌, length, arith, Option, none,
  some, subst, length-append,
}
use nexum.Prelude.Int.{ℤ}
use nexum.Errors.{Result-cases}
use nexum.Std.{Std, Bytes}
use nexum.Std.Equality.{append_inj, bytes_eq_sound}
use nexum.Receipt.{last_hash}
use nexum.Agreement.{Agreement}
use nexum.Pow.{Header}
use nexum.L2
use nexum.L2.{Codec, Batch, root_block, root_bytes, root, terms_bytes, terms_digest}
use nexum.L2.Collision.{Collision, collide, unless}
use nexum.L2.Terms.{terms_texts, NulFree, terms_texts-inj}
use nexum.L2.Written.{Written, WrittenResult, root_bytes-Written}

module _ (std : Std) (codec : Codec) where
  -- A digest has 32 bytes, also one read back from hex; and reading back loses nothing of a digest.
  pub record Digests : Type 0 where
    pub width : (b : Bytes) → length (codec.keccak b) ≡ 32
    pub hex_width :
        (t : String) (raw : Bytes)
        → codec.decode_hex (std.sha256_hex t) ≡ some raw
        → length raw ≡ 32
    pub hex_inj :
        (s t : String) (raw : Bytes)
        → codec.decode_hex (std.sha256_hex s) ≡ some raw
        → codec.decode_hex (std.sha256_hex t) ≡ some raw
        → std.sha256_hex s ≡ std.sha256_hex t

  -- One by one, the same terms and the same last receipt hash.
  abbrev pub SameSealed : List (Option Agreement) → List (Option Agreement) → Type 0
  SameSealed [] [] = Unit
  SameSealed (some a ∷ as_) (some b ∷ bs) =
      (terms_texts std codec a ≡ terms_texts std codec b)
      × (last_hash a.receipts ≡ last_hash b.receipts)
      × SameSealed as_ bs
  SameSealed _ _ = ⊥

  -- No text of the terms of any agreement holds a zero character.
  abbrev pub AllNulFree : List (Option Agreement) → Type 0
  AllNulFree [] = Unit
  AllNulFree (none ∷ as_) = AllNulFree as_
  AllNulFree (some a ∷ as_) = NulFree (terms_texts std codec a) × AllNulFree as_

  module _ (digests : Digests) where
    block_width :
        (a : Agreement) (raw : Bytes) (t : String)
        → codec.decode_hex (last_hash a.receipts) ≡ some raw
        → last_hash a.receipts ≡ std.sha256_hex t
        → length (codec.keccak (terms_bytes std codec a) ++ raw) ≡ 64
    block_width a raw t decoded hex = omega (
      arith,
      length-append (codec.keccak (terms_bytes std codec a)) raw,
      digests.width (terms_bytes std codec a),
      digests.hex_width t raw (ap codec.decode_hex (sym hex) ∙ decoded),
    )

    written_ne_nil :
        (a : Agreement) (raw more : Bytes)
        → (codec.keccak (terms_bytes std codec a) ++ raw) ++ more ≢ []
    written_ne_nil a raw more e = absurd (
        omega (
          arith,
          ap length e,
          length-append (codec.keccak (terms_bytes std codec a) ++ raw) more,
          length-append (codec.keccak (terms_bytes std codec a)) raw,
          digests.width (terms_bytes std codec a),
        ))

    -- Two blocks at the front of equal bytes.
    block_parts :
        (a b : Agreement) (raw raw' more more' : Bytes) (t t' : String)
        → codec.decode_hex (last_hash a.receipts) ≡ some raw
        → codec.decode_hex (last_hash b.receipts) ≡ some raw'
        → last_hash a.receipts ≡ std.sha256_hex t
        → last_hash b.receipts ≡ std.sha256_hex t'
        → (codec.keccak (terms_bytes std codec a) ++ raw) ++ more
          ≡ (codec.keccak (terms_bytes std codec b) ++ raw') ++ more'
        → (codec.keccak (terms_bytes std codec a) ≡ codec.keccak (terms_bytes std codec b))
          × (raw ≡ raw')
          × (more ≡ more')
    block_parts a b raw raw' more more' t t' decoded decoded' hex hex' e =
        let key = codec.keccak (terms_bytes std codec a) in
        let key' = codec.keccak (terms_bytes std codec b) in
        let (blocks, tails) =
          append_inj (key ++ raw) (key' ++ raw') more more'
            (block_width a raw t decoded hex ∙ sym (block_width b raw' t' decoded' hex')) e in
        let (keys, raws) =
          append_inj key key' raw raw'
            (digests.width (terms_bytes std codec a)
              ∙ sym (digests.width (terms_bytes std codec b)))
            blocks in
        (keys, raws, tails)

    verified :
        (as_ : List (Option Agreement)) (h : Header) (floor : ℤ)
        → L2.verify std codec as_ h floor ≡ none
        → (out : Bytes) × Written std codec as_ out × (codec.keccak out ≡ h.batch_root)
    unfolding L2.verify root
    verified as_ h floor p = elim (Result-cases (root_bytes std codec as_)) [
      | inl (e, failed) ↦ absurd (ground (arith, failed, p))
      | inr (out, made) ↦ (
        out,
        subst (WrittenResult std codec as_) made (root_bytes-Written std codec as_),
        ground (arith, made, p, bytes_eq_sound (codec.keccak out) h.batch_root),
      )
    ]

    Written-inj :
        (as_ bs : List (Option Agreement)) (out : Bytes)
        → AllNulFree as_
        → AllNulFree bs
        → Written std codec as_ out
        → Written std codec bs out
        → Collision codec.keccak ⊎ SameSealed as_ bs
    Written-inj [] [] out f g h k = inr tt
    Written-inj [] (none ∷ bs) out f g h k = absurd k
    Written-inj [] (some b ∷ bs) out f g h (raw, more, t, wrote, decoded, hex, rest) =
        absurd (written_ne_nil b raw more (sym wrote ∙ h))
    Written-inj (none ∷ as_) bs out f g h k = absurd h
    Written-inj (some a ∷ as_) [] out f g (raw, more, t, wrote, decoded, hex, rest) k =
        absurd (written_ne_nil a raw more (sym wrote ∙ k))
    Written-inj (some a ∷ as_) (none ∷ bs) out f g h k = absurd k
    Written-inj (some a ∷ as_) (some b ∷ bs) out f g (raw, more, t, wrote, decoded, hex, rest)
          (raw', more', t', wrote', decoded', hex', rest') =
        let (keys, raws, tails) =
          block_parts a b raw raw' more more' t t' decoded decoded' hex hex' (sym wrote ∙ wrote') in
        unless (collide codec.keccak (terms_bytes std codec a) (terms_bytes std codec b) keys)
          (λ same.
            unless
              (Written-inj as_ bs more f.1 g.1 rest
                (subst (Written std codec bs) (sym tails) rest'))
              (λ others. inr (
                terms_texts-inj std codec a b f.0 g.0 same,
                hex
                    ∙ digests.hex_inj t t' raw (ap codec.decode_hex (sym hex) ∙ decoded)
                        (ap codec.decode_hex (sym hex') ∙ decoded' ∙ ap some (sym raws))
                    ∙ sym hex',
                others,
              )))

    -- Where Verify accepts one header for two lists of agreements, at any floors, the lists have one
    -- length and the same terms and last receipt hash at every place, unless the digest has a collision.
    -- It is assumed that no text of the terms holds a zero character, that digests have 32 bytes, and
    -- that hex reads back.
    pub sealed_header_binds :
        (as_ bs : List (Option Agreement)) (h : Header) (floor floor' : ℤ)
        → AllNulFree as_
        → AllNulFree bs
        → L2.verify std codec as_ h floor ≡ none
        → L2.verify std codec bs h floor' ≡ none
        → Collision codec.keccak ⊎ SameSealed as_ bs
    sealed_header_binds as_ bs h floor floor' f g p q =
        let (out, left, is_root) = verified as_ h floor p in
        let (out', right, is_root') = verified bs h floor' q in
        unless (collide codec.keccak out out' (is_root ∙ sym is_root'))
          (λ same. Written-inj as_ bs out f g left (subst (Written std codec bs) (sym same) right))
