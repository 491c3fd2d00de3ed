-- ===== src/Cache/Tests.antt =====
-- The theorems on proxylab-s20-bhxxzp/cache.c at concrete caches, and test runs.
use cmu.Common.{◌≢◌, none, ℕ, ◌≡◌, refl, Option, none, some, [], ◌∷◌, arith, update}
use cmu.Cache.{
  Text, Node, Store, ok, fault, load, set_next, set_prev, get_value, search, same_key, write_node,
  evict, delete_node, shrink, unlink, free, free_list,
}
use cmu.Cache.Links.{Cell, node_of}
use cmu.Cache.Lookup.{Ensures, IsCache, find_key, get_value_lem}
use cmu.Cache.Write.{object, write_node_lem}
use cmu.Cache.Ends.{sentinel, free_list-faults}

abbrev nothing : ℕ → Option Node
nothing a = none

abbrev first_key : Text
first_key = b'a' ∷ []

abbrev second_key : Text
second_key = b'b' ∷ []

abbrev cell_a : Cell
cell_a = object 10 first_key (1 ∷ 2 ∷ []) 600000

abbrev cell_b : Cell
cell_b = object 20 second_key (3 ∷ []) 400000

-- A cache of two objects.
abbrev two : Store
two = record {
  mem =
      update
        (update
          (update (update nothing 1 (some (node_of (sentinel 1) 20 0))) 20
            (some (node_of cell_b 10 1)))
          10 (some (node_of cell_a 2 20)))
        2 (some (node_of (sentinel 2) 0 10));
  list_size = 1000000;
  head = 1;
  tail = 2;
}

two-IsCache : IsCache two (sentinel 1) (sentinel 2) (cell_b ∷ cell_a ∷ [])
two-IsCache = record {
  linked = (
    λ e. omega arith,
    refl,
    refl,
    (
      λ e. omega arith,
      refl,
      refl,
      (λ e. omega arith, refl, refl, (λ e. omega arith, refl, refl, tt)),
    ),
  );
  head = refl;
  tail = refl;
  keyed = (refl, (refl, tt));
  size = refl;
  fits = omega arith;
}

get_value_lem_example :
    Ensures
      (λ r s'.
        (r ≡ some (1 ∷ 2 ∷ [], 600000))
        × IsCache s' (sentinel 1) (sentinel 2) (cell_a ∷ cell_b ∷ []))
      (get_value 3 first_key two)
get_value_lem_example =
    get_value_lem 3 first_key two (sentinel 1) (sentinel 2) (cell_b ∷ cell_a ∷ []) two-IsCache
      (omega arith)

-- The object that was used longest ago makes room.
write_node_lem_example :
    Ensures
      (λ _ s'.
        IsCache s' (sentinel 1) (sentinel 2) (object 30 (b'c' ∷ []) (7 ∷ []) 500000 ∷ cell_b ∷ []))
      (write_node 3 30 (b'c' ∷ []) (7 ∷ []) 500000 two)
    × (find_key (b'c' ∷ []) (cell_b ∷ cell_a ∷ []) ≢ none
        → write_node 3 30 (b'c' ∷ []) (7 ∷ []) 500000 two ≡ ok tt two)
write_node_lem_example =
    write_node_lem 3 two (sentinel 1) (sentinel 2) (cell_b ∷ cell_a ∷ []) 30 (b'c' ∷ []) (7 ∷ [])
      500000 two-IsCache (omega arith) (λ e. omega arith) refl (omega arith)

free_list-faults_example : free_list 3 two ≡ fault
free_list-faults_example =
    free_list-faults 3 two (sentinel 1) (sentinel 2) (cell_b ∷ cell_a ∷ []) two-IsCache refl
      (omega arith)

-- An object that is larger than the cache empties it, and the loop goes on to the head sentinel.
too_large : write_node 3 30 (b'c' ∷ []) (7 ∷ []) 1048577 two ≡ fault
unfolding write_node search same_key load evict delete_node shrink unlink free set_next set_prev
too_large = refl
