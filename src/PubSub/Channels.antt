-- ===== src/PubSub/Channels.antt =====
-- The channels of `SubRegistry`, and the frames about them, of radixox/src/bin/utils/mod.rs. The hash
-- map is a list of entries, searched from the front.
pub mod Laws
use radixox.Common.{
  same_bytes, ℕ, zero, suc, ◌+◌, ◌-◌, Bool, true, false, ◌&&◌, ◌==◌, if◌then◌else◌, List, [], ◌∷◌,
  ◌++◌, Option, none, some, Run, pos,
}
use radixox.GenArena.{Key, same_key}
use radixox.Frame.{Frame, bulk_string, integer, array, no_frames, ◌▷◌, extend_encode}

abbrev pub Channels : Type 0
Channels = List (List ℕ × List Key)

abbrev pub get_channel : List ℕ → Channels → Option (List Key)
get_channel ch [] = none
get_channel ch (e ∷ es) = if same_bytes ch e.0 then some e.1 else get_channel ch es

-- `entry(channel).or_default().push(sub_id)`
abbrev pub push_sub : List ℕ → Key → Channels → Channels
push_sub ch id [] = (ch, id ∷ []) ∷ []
push_sub ch id (e ∷ es) =
    if same_bytes ch e.0 then (e.0, e.1 ++ id ∷ []) ∷ es else e ∷ push_sub ch id es

-- `subs.retain(|&id| id != sub_id)`
abbrev pub retain_others : Key → List Key → List Key
retain_others id [] = []
retain_others id (k ∷ ks) = if same_key k id then retain_others id ks else k ∷ retain_others id ks

abbrev pub contains_id : Key → List Key → Bool
contains_id id [] = false
contains_id id (k ∷ ks) = if same_key k id then true else contains_id id ks

abbrev pub is_nil {ℓ} : {A : Type ℓ} → List A → Bool
is_nil [] = true
is_nil (x ∷ xs) = false

-- The channel's subscriptions without those of `id`; the entry goes with the last one.
abbrev pub drop_sub : List ℕ → Key → Channels → Channels
drop_sub ch id [] = []
drop_sub ch id (e ∷ es) =
    let rest = drop_sub ch id es in
    if same_bytes ch e.0
    then (if is_nil (retain_others id e.1) then rest else (e.0, retain_others id e.1) ∷ rest)
    else e ∷ rest

-- `conn_map.retain(..)` of `cleanup`
abbrev pub drop_everywhere : Key → Channels → Channels
drop_everywhere id [] = []
drop_everywhere id (e ∷ es) =
    let rest = drop_everywhere id es in
    if is_nil (retain_others id e.1) then rest else (e.0, retain_others id e.1) ∷ rest

-- The channels of `id`.
abbrev pub channels_of : Key → Channels → List (List ℕ)
channels_of id [] = []
channels_of id (e ∷ es) = if contains_id id e.1 then e.0 ∷ channels_of id es else channels_of id es

-- "unsubscribe"
abbrev pub unsubscribe_word : List ℕ
unsubscribe_word = b'u' ∷ b'n' ∷ b's' ∷ b'u' ∷ b'b' ∷ b's' ∷ b'c' ∷ b'r' ∷ b'i' ∷ b'b' ∷ b'e' ∷ []

-- "message"
abbrev pub message_word : List ℕ
message_word = b'm' ∷ b'e' ∷ b's' ∷ b's' ∷ b'a' ∷ b'g' ∷ b'e' ∷ []

-- "ERR wrong number of arguments for 'PUBLISH' command"
abbrev pub wrong_number : List ℕ
wrong_number =
    b'E' ∷ b'R' ∷ b'R' ∷ b' ' ∷ b'w' ∷ b'r' ∷ b'o' ∷ b'n' ∷ b'g' ∷ b' ' ∷ b'n' ∷ b'u' ∷ b'm' ∷ b'b'
    ∷ b'e' ∷ b'r' ∷ b' ' ∷ b'o' ∷ b'f' ∷ b' ' ∷ b'a' ∷ b'r' ∷ b'g' ∷ b'u' ∷ b'm' ∷ b'e' ∷ b'n'
    ∷ b't' ∷ b's' ∷ b' ' ∷ b'f' ∷ b'o' ∷ b'r' ∷ b' ' ∷ 39 ∷ b'P' ∷ b'U' ∷ b'B' ∷ b'L' ∷ b'I' ∷ b'S'
    ∷ b'H' ∷ 39 ∷ b' ' ∷ b'c' ∷ b'o' ∷ b'm' ∷ b'm' ∷ b'a' ∷ b'n' ∷ b'd' ∷ []

-- The confirmations from the channel number `i` of `total` on.
abbrev pub confirmations : ℕ → ℕ → ℕ → List (List ℕ) → List Frame
confirmations remaining total i [] = []
confirmations remaining total i (ch ∷ chs) =
    array (
      bulk_string unsubscribe_word
      ▷ bulk_string ch
      ▷ integer (pos (remaining - (total - 1 - i)))
      ▷ no_frames)
    ∷ confirmations remaining total (i + 1) chs

-- The channels to leave: those that are named, or else all of the connection.
abbrev pub to_remove : Key → Channels → List (List ℕ) → List (List ℕ)
to_remove id es [] = channels_of id es
to_remove id es (ch ∷ chs) = ch ∷ chs

unfoldable pub encode_pubsub_message : List ℕ → List ℕ → Run (List ℕ)
encode_pubsub_message channel message =
    extend_encode []
      (array (bulk_string message_word ▷ bulk_string channel ▷ bulk_string message ▷ no_frames))
