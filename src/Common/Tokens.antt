-- ===== src/Common/Tokens.antt =====
-- strtok_r: the runs of characters that are no delimiters.
use fledge_south_tase.Common.Tests.{if◌then◌else◌}
use fledge_south_tase.Common.Texts.{◌⧺◌, is_empty, all_chars, nil-append, cons-append, append_assoc}
use Prim.Native.Nat.{ℕ}
use Prim.Native.Char.{Char, code}
use Prim.Native.String.{String}
use mathlib.Core.Bool.{Bool, true, false, not}
use mathlib.Core.List.{List, [], ◌∷◌}
use mathlib.Core.Path.{◌≡◌, ap, ◌∙◌}
use text.Mathlib.TextLemmas.{append-nil}
use native.Mathlib.Omega.{arith}

abbrev snoc : String → Char → String
snoc s c = s ⧺ String.◌∷◌ c String.[]

-- The texts that strtok_r returns one after the other; `cur` is the run read so far.
unfoldable pub tokens_from : (ℕ → Bool) → String → String → List String
tokens_from d cur String.[] = if is_empty cur then [] else cur ∷ []
tokens_from d cur (String.◌∷◌ c s) =
    let after = tokens_from d "" s in
    let longer = tokens_from d (snoc cur c) s in
    if d (code c) then (if is_empty cur then after else cur ∷ after) else longer

unfoldable pub tokens : (ℕ → Bool) → String → List String
unfolding tokens_from
tokens d s = tokens_from d "" s

snoc-append : (s : String) (c : Char) (t : String) → snoc s c ⧺ t ≡ s ⧺ String.◌∷◌ c t
snoc-append s c t =
    append_assoc s _ t ∙ ap (◌⧺◌ s) (cons-append c _ t ∙ ap (String.◌∷◌ c) (nil-append t))

module _ (d : ℕ → Bool) where
  run_head :
      (x : Char) (t : String)
      → all_chars (λ k. not (d k)) (String.◌∷◌ x t) ≡ true
      → (d (code x) ≡ false) × (all_chars (λ k. not (d k)) t ≡ true)
  unfolding all_chars
  run_head x t run = ground arith

  -- A run, the delimiter behind it, and the rest.
  pub tokens_from-append :
      (cur t : String) (c : Char) (s : String)
      → all_chars (λ k. not (d k)) t ≡ true
      → d (code c) ≡ true
      → is_empty (cur ⧺ t) ≡ false
      → tokens_from d cur (t ⧺ String.◌∷◌ c s) ≡ (cur ⧺ t) ∷ tokens_from d "" s
  unfolding tokens_from
  tokens_from-append cur String.[] c s run cut full =
      rw (nil-append, cut) (ground (arith, append-nil cur))
  tokens_from-append cur (String.◌∷◌ x t) c s run cut full =
      let (plain, later) = run_head x t run in
      let full' : is_empty (snoc cur x ⧺ t) ≡ false = rw snoc-append full in
      rw (cons-append, plain)
        (tokens_from-append (snoc cur x) t c s later cut full'
          ∙ ap (λ u. u ∷ tokens_from d "" s) (snoc-append cur x t))

  -- A last run.
  pub tokens_from_last :
      (cur t : String)
      → all_chars (λ k. not (d k)) t ≡ true
      → is_empty (cur ⧺ t) ≡ false
      → tokens_from d cur t ≡ (cur ⧺ t) ∷ []
  unfolding tokens_from
  tokens_from_last cur String.[] run full = ground (arith, append-nil cur)
  tokens_from_last cur (String.◌∷◌ x t) run full =
      let (plain, later) = run_head x t run in
      let full' : is_empty (snoc cur x ⧺ t) ≡ false = rw snoc-append full in
      rw plain
        (tokens_from_last (snoc cur x) t later full' ∙ ap (λ u. u ∷ []) (snoc-append cur x t))
