-- ===== src/PubSub/Channels/Laws.antt =====
-- The map of the channels after each change, channel by channel.
use radixox.Common.{
  same_bytes, same_bytes_eq, same_bytes_refl, same_bytes_apart, ℕ, if◌then◌else◌, List, [], ◌∷◌,
  ◌++◌, Option, none, some, ◌≡◌, refl, ap, ◌∙◌, inl, inr, arith, Bool-cases,
}
use radixox.GenArena.{Key}
use radixox.PubSub.Channels.{
  Channels, get_channel, push_sub, retain_others, is_nil, drop_sub, drop_everywhere,
}

-- No channel has two entries.
abbrev pub Distinct : Channels → Type 0
Distinct [] = Unit
Distinct (e ∷ es) = (get_channel e.0 es ≡ none) × Distinct es

abbrev pub list_of : Option (List Key) → List Key
list_of none = []
list_of (some ks) = ks

-- An entry without the subscriptions of `id`, if others are left.
abbrev pub without : Key → Option (List Key) → Option (List Key)
without id none = none
without id (some ks) = if is_nil (retain_others id ks) then none else some (retain_others id ks)

pub get_channel-push_sub :
    (q ch : List ℕ) (id : Key) (es : Channels)
    → get_channel q (push_sub ch id es) ≡ (
        if same_bytes q ch then some (list_of (get_channel ch es) ++ id ∷ []) else get_channel q es)
get_channel-push_sub q ch id [] = refl
get_channel-push_sub q ch id (e ∷ es) = elim (Bool-cases (same_bytes ch e.0)) [
  | inl here ↦
      let same : same_bytes q ch ≡ same_bytes q e.0 =
        ap (same_bytes q) (same_bytes_eq ch e.0 here) in
      ground (arith, here, same)
  | inr there ↦ elim (Bool-cases (same_bytes q e.0)) [
    | inr other ↦ ground (arith, there, other, get_channel-push_sub q ch id es)
    | inl hit ↦ let same = same_bytes_apart q ch e.0 hit there in ground (arith, there, hit, same)
  ]
]

pub get_channel-drop_sub :
    (q ch : List ℕ) (id : Key) (es : Channels)
    → Distinct es
    → get_channel q (drop_sub ch id es)
      ≡ (if same_bytes q ch then without id (get_channel q es) else get_channel q es)
get_channel-drop_sub q ch id [] d = ground arith
get_channel-drop_sub q ch id (e ∷ es) (first, d) =
    let more = get_channel-drop_sub q ch id es d in
    elim (Bool-cases (same_bytes ch e.0)) [
      | inl here ↦
          let same : same_bytes q ch ≡ same_bytes q e.0 =
            ap (same_bytes q) (same_bytes_eq ch e.0 here) in
          elim (Bool-cases (same_bytes q e.0)) [
            | inr other ↦ ground (arith, here, same, other, more)
            | inl hit ↦
                let gone : get_channel q es ≡ none =
                  ap (λ (a : List ℕ). get_channel a es) (same_bytes_eq q e.0 hit) ∙ first in
                ground (arith, here, same, hit, gone, more)
          ]
      | inr there ↦ elim (Bool-cases (same_bytes q e.0)) [
        | inr other ↦ ground (arith, there, other, more)
        | inl hit ↦
            let same = same_bytes_apart q ch e.0 hit there in ground (arith, there, hit, same)
      ]
    ]

pub get_channel-drop_everywhere :
    (q : List ℕ) (id : Key) (es : Channels)
    → Distinct es
    → get_channel q (drop_everywhere id es) ≡ without id (get_channel q es)
get_channel-drop_everywhere q id [] d = refl
get_channel-drop_everywhere q id (e ∷ es) (first, d) =
    let more = get_channel-drop_everywhere q id es d in
    elim (Bool-cases (same_bytes q e.0)) [
      | inr other ↦ ground (arith, other, more)
      | inl hit ↦
          let gone : get_channel q es ≡ none =
            ap (λ (a : List ℕ). get_channel a es) (same_bytes_eq q e.0 hit) ∙ first in
          ground (arith, hit, gone, more)
    ]

pub Distinct-push_sub :
    (ch : List ℕ) (id : Key) (es : Channels) → Distinct es → Distinct (push_sub ch id es)
Distinct-push_sub ch id [] d = (refl, tt)
Distinct-push_sub ch id (e ∷ es) (first, d) = elim (Bool-cases (same_bytes ch e.0)) [
  | inl here ↦ rw here (first, d)
  | inr there ↦
      let apart = same_bytes_apart e.0 ch e.0 (same_bytes_refl e.0) there in
      rw there (
        ground (arith, get_channel-push_sub e.0 ch id es, apart, first),
        Distinct-push_sub ch id es d,
      )
]

pub Distinct-drop_sub :
    (ch : List ℕ) (id : Key) (es : Channels) → Distinct es → Distinct (drop_sub ch id es)
Distinct-drop_sub ch id [] d = tt
Distinct-drop_sub ch id (e ∷ es) (first, d) =
    let more = Distinct-drop_sub ch id es d in
    let still : get_channel e.0 (drop_sub ch id es) ≡ none =
      ground (arith, get_channel-drop_sub e.0 ch id es d, first) in
    ground (arith, more, still)

pub Distinct-drop_everywhere :
    (id : Key) (es : Channels) → Distinct es → Distinct (drop_everywhere id es)
Distinct-drop_everywhere id [] d = tt
Distinct-drop_everywhere id (e ∷ es) (first, d) =
    let more = Distinct-drop_everywhere id es d in
    let still : get_channel e.0 (drop_everywhere id es) ≡ none =
      ground (arith, get_channel-drop_everywhere e.0 id es d, first) in
    ground (arith, more, still)
