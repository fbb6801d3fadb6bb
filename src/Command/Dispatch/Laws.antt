-- ===== src/Command/Dispatch/Laws.antt =====
-- What a command's name is told by.
use radixox.Common.{
  ℕ, zero, suc, ◌≡◌, refl, sym, ap, ◌∙◌, List, [], ◌∷◌, map, Option, length, get_or,
}
use radixox.Command.{Bytes}
use radixox.Command.Options.{lower}
use radixox.Command.Words.{letter, on_d, on_e, on_f, on_g, on_h, on_i, on_k, on_m, on_p, on_q}
use radixox.Command.Dispatch.{dispatch, on_s, on_t, on_u, on_z}

length-map : (f : ℕ → ℕ) (s : List ℕ) → length (map f s) ≡ length s
length-map f [] = refl
length-map f (b ∷ s) = ap suc (length-map f s)

letter-map : (s : Bytes) (i : ℕ) → get_or (map lower s) i 32 ≡ letter s i
letter-map [] i = refl
letter-map (b ∷ s) zero = refl
letter-map (b ∷ s) (suc i) = letter-map s i

module _ {F : Type 0} (arg_f64 : Bytes → Option F) where
  -- The name is told by its bytes with the bit 0x20 set, that is, in either case.
  pub dispatch-case :
      (cmd cmd' : Bytes) (args : List Bytes)
      → map lower cmd ≡ map lower cmd'
      → dispatch arg_f64 (cmd ∷ args) ≡ dispatch arg_f64 (cmd' ∷ args)
  unfolding dispatch on_d on_e on_f on_g on_h on_i on_k on_m on_p on_q on_s on_t on_u on_z
  dispatch-case cmd cmd' args same =
      let len : length cmd ≡ length cmd' =
        sym (length-map lower cmd) ∙ ap length same ∙ length-map lower cmd' in
      let at =
        λ (i : ℕ). sym (letter-map cmd i) ∙ ap (λ s. get_or s i 32) same ∙ letter-map cmd' i in
      rw (len, at 0, at 1, at 2, at 3) refl
