-- ===== src/PubSub/Registry/Cleanup.antt =====
-- What is left of a connection that is closed, and of one that leaves channels.
use radixox.Common.{ℕ, false, List, [], ◌∷◌, Option, none, some, ◌≡◌, ◌≢◌, ◌⊎◌, refl, arith}
use radixox.GenArena.{Key, get}
use radixox.GenArena.Laws.{IsValid}
use radixox.GenArena.Remove.{remove-Drops}
use radixox.PubSub.Channels.{get_channel, retain_others, contains_id}
use radixox.PubSub.Channels.Laws.{
  Distinct, without, list_of, get_channel-drop_everywhere, Distinct-drop_everywhere,
}
use radixox.PubSub.Registry.{SubRegistry, cleanup}

contains-retain_others : (id : Key) (ks : List Key) → contains_id id (retain_others id ks) ≡ false
contains-retain_others id [] = refl
contains-retain_others id (k ∷ ks) = ground (arith, contains-retain_others id ks)

contains-without :
    (id : Key) (o : Option (List Key)) → contains_id id (list_of (without id o)) ≡ false
contains-without id none = refl
contains-without id (some ks) = ground (arith, contains-retain_others id ks)

module _ {W V : Type 0} where
  pub record Forgets (r : SubRegistry W V) (id : Key) (r' : SubRegistry W V) : Type 0 where
    pub vacant : List ℕ
    pub valid : IsValid vacant r'.conn_arena
    pub distinct : Distinct r'.conn_map
    pub gone : get r'.conn_arena id ≡ none
    pub elsewhere :
        (k : Key)
        → (k.idx ≢ id.idx) ⊎ (k.generation ≢ id.generation)
        → get r'.conn_arena k ≡ get r.conn_arena k
    pub unlisted : (q : List ℕ) → contains_id id (list_of (get_channel q r'.conn_map)) ≡ false
    pub others : (q : List ℕ) → get_channel q r'.conn_map ≡ without id (get_channel q r.conn_map)

  -- In a valid registry, `cleanup` leaves no trace of a connection: its key gives nothing and is among
  -- the subscriptions of no channel. The registry stays valid, other connections are as they were,
  -- and each channel keeps its other subscriptions, or goes if there are none.
  pub cleanup-Forgets :
      (vacant : List ℕ) (r : SubRegistry W V) (id : Key)
      → IsValid vacant r.conn_arena
      → Distinct r.conn_map
      → Forgets r id (cleanup r id)
  unfolding cleanup
  cleanup-Forgets vacant r id v d =
      let dropped = remove-Drops vacant r.conn_arena v id in
      let channels = λ (q : List ℕ). get_channel-drop_everywhere q id r.conn_map d in
      record {
        vacant = dropped.vacant;
        valid = dropped.valid;
        distinct = Distinct-drop_everywhere id r.conn_map d;
        gone = dropped.gone;
        elsewhere = dropped.elsewhere;
        unlisted = λ q. rw (channels q) (contains-without id (get_channel q r.conn_map));
        others = channels;
      }
