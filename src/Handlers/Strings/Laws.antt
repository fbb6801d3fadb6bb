-- ===== src/Handlers/Strings/Laws.antt =====
-- SET of radixox/src/bin/resp_cmd/string.rs for a key that has a value, and the GET after it.
use radixox.Common.{
  ℕ, ◌<◌, ◌^◌, ◌≡◌, refl, ap, ◌∙◌, Bool, true, false, List, [], ◌∷◌, Option, none, some, ok, arith,
  inl, inr, Returns,
}
use radixox.Command.{Bytes, Duration, SetCondition, SetOpts, always, if_not_exists, if_exists}
use radixox.Frame.{bulk_string, null}
use radixox.Expiry
use radixox.Expiry.{no_expiracy_bits}
use radixox.Node.{Node}
use radixox.Tree.{Crates, Tree, try_get_node}
use radixox.Tree.Shape.{IsValid}
use radixox.Tree.Descent.{Walks}
use radixox.Tree.Insert.{saturating_add, set_internal, set, set_ttl}
use radixox.Tree.Remove.{get}
use radixox.Tree.Write.Read.{Lasts, get-set_internal, get-Walks}
use radixox.Value.{Value, as_bytes}
use radixox.Value.{string as string_value}
use radixox.Handlers.{ok_frame}
use radixox.Handlers.Options.{parse_set_options}
use radixox.Handlers.Strings.{refuses, check, write, cmd_set, cmd_get}

-- The time that SET stores.
abbrev pub deadline : Option Duration → ℕ → ℕ
deadline none now = no_expiracy_bits
deadline (some d) now = saturating_add now d.secs

deadline-Lasts :
    (ttl : Option Duration) (now : ℕ) → deadline ttl now < 2 ^ 56 → Lasts (deadline ttl now) now
deadline-Lasts none now small = inl refl
deadline-Lasts (some d) now small = inr (omega arith)

module _ {Z : Type 0} {m : Crates (Value Z)} where
  write-deadline :
      (key val : Bytes) (ttl : Option Duration) (t : Tree m)
      → write key val ttl t ≡ set_internal t key (deadline ttl t.now) (string_value val)
  unfolding set set_ttl
  write-deadline key val none t = refl
  write-deadline key val (some d) t = refl

  check-present :
      (c : SetCondition) (key : Bytes) (t : Tree m) (old : Value Z)
      → get t key ≡ ok (some old, t)
      → check c key t ≡ ok (refuses c true, t)
  check-present always key t old here = refl
  check-present if_not_exists key t old here = rw here refl
  check-present if_exists key t old here = rw here refl

  module _ (vacant : List ℕ) (t : Tree m) (key val : Bytes) (args : List Bytes)
      (opts : SetOpts) where
    -- What SET does to a key that has a value.
    abbrev Sets : Bool → Type 0
    Sets true = cmd_set (key ∷ val ∷ args) t ≡ ok (null, t)
    Sets false = Returns (cmd_set (key ∷ val ∷ args) t) (λ r.
        (r.0 ≡ ok_frame)
        × (cmd_get (key ∷ []) r.1 ≡ ok (bulk_string val, r.1))
        × IsValid vacant r.1)

    checked-Sets :
        (refused : Bool)
        → parse_set_options args ≡ inr opts
        → check opts.condition key t ≡ ok (refused, t)
        → Returns
            (write key val opts.ttl t)
            (λ t'. IsValid vacant t' × (get t' key ≡ ok (some (string_value val), t')))
        → Sets refused
    unfolding cmd_set cmd_get as_bytes
    checked-Sets true read checked w = rw (read, checked) refl
    checked-Sets false read checked (t', run, (v, found)) =
        ((ok_frame, t'), rw (read, checked, run) refl, (refl, rw found refl, v))

    -- In a well-formed tree, let the key have a value that has not expired, in a node with a
    -- word of 64 bits, and let the options of SET be read and give a time of at most 56 bits.
    -- With NX the reply is null, and nothing changes. Otherwise SET replies OK, the tree stays
    -- well-formed, and GET replies with the new string.
    pub cmd_set-Sets :
        (j : ℕ) (n : Node (Value Z)) (old : Value Z)
        → IsValid vacant t
        → Walks t t.root_idx key j
        → try_get_node t j ≡ some n
        → n.val ≡ some old
        → Expiry.is_expired n.exp_and_radix t.now ≡ false
        → n.exp_and_radix < 2 ^ 64
        → parse_set_options args ≡ inr opts
        → deadline opts.ttl t.now < 2 ^ 56
        → Sets (refuses opts.condition true)
    cmd_set-Sets j n old v w at value lives word read small =
        let (t', run, (v', found, _, _)) =
          get-set_internal vacant t key (deadline opts.ttl t.now) (string_value val) j n v w at word
            small (deadline-Lasts opts.ttl t.now small) in
        checked-Sets (refuses opts.condition true) read
          (check-present opts.condition key t old
            (get-Walks vacant t key j n v w at lives ∙ ap (λ z. ok (z, t)) value))
          (t', write-deadline key val opts.ttl t ∙ run, (v', found))
