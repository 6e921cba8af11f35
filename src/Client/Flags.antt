-- ===== src/Client/Flags.antt =====
-- What the texts of a value's quality can be (src/tase2_client.cpp).
use fledge_south_tase.Common.{
  ℕ, String, true, [], ◌∷◌, ◌≡◌, ◌≢◌, refl, arith, if◌then◌else◌, ◌⊎◌, inl, inr, Bool-cases,
}
use fledge_south_tase.Common.Bits.{bit_or_none}
use fledge_south_tase.Client.{
  PointLibrary, text, either_set, validity_to_string, current_source_to_string,
  normal_value_to_string, quality_fields,
}

-- A mask with a bit set is found in any flags.
either_set_always : (flags mask : ℕ) → mask ≢ 0 → either_set flags mask ≡ true
either_set_always flags mask some_bit = ground (arith, bit_or_none flags mask)

-- Of four texts that are tried with masks in turn, the second mask having a bit set.
two_texts :
    (flags m n o p : ℕ) (s t u v : String)
    → n ≢ 0
    → let r =
        if either_set flags m
        then s
        else if either_set flags n
        then t
        else if either_set flags o
        then u
        else if either_set flags p
        then v
        else "" in
      (r ≡ s) ⊎ (r ≡ t)
two_texts flags m n o p s t u v some_bit = elim (Bool-cases (either_set flags m)) [
  | inl e ↦ rw e (inl refl)
  | inr e ↦ rw (e, either_set_always flags n some_bit) (inr refl)
]

-- If the masks for held, for entered and for the normal value have a bit set, then whatever the
-- flags of a value are, its quality says that it is valid or held, that it is telemetered or
-- entered, and that it is normal: the texts for a suspect, an invalid, a calculated, an estimated
-- and an abnormal value are never sent.
pub quality_fields_few :
    (lib : PointLibrary) (flags : ℕ)
    → lib.validity_held ≢ 0
    → lib.source_entered ≢ 0
    → lib.normal_value ≢ 0
    → (validity source : String) × ((validity ≡ "valid") ⊎ (validity ≡ "held"))
      × ((source ≡ "telemetered") ⊎ (source ≡ "entered"))
      × (quality_fields lib flags
          ≡ ("do_validity", text validity)
            ∷ ("do_cs", text source)
            ∷ ("do_quality_normal_value", text "normal")
            ∷ [])
unfolding quality_fields validity_to_string current_source_to_string normal_value_to_string
quality_fields_few lib flags held entered normal = (
  validity_to_string lib flags,
  current_source_to_string lib flags,
  two_texts flags _ _ _ _ _ _ _ _ held,
  two_texts flags _ _ _ _ _ _ _ _ entered,
  rw (either_set_always flags lib.normal_value normal) refl,
)
