-- ===== src/Cache/Ends.antt =====
-- init_cache and free_list of proxylab-s20-bhxxzp/cache.c.
use cmu.Common.{
  ℕ, zero, suc, ◌+◌, ◌-◌, ◌%◌, ◌^◌, ◌<◌, ◌≡◌, refl, ◌≢◌, ◌∙◌, sym, ap, false, none, some, List, [],
  ◌∷◌, ◌++◌, arith, length, ==-false, ==-true, update, update_ne,
}
use cmu.Cache.{
  Store, fault, load, free, unlink, shrink, delete_node, init_cache, set_next, set_prev, free_loop,
  free_list,
}
use cmu.Cache.Links.{Cell, node_of, first, has, Memory, Linked, frame, Unlinked, unlinked}
use cmu.Cache.Lookup.{Ensures, IsCache}

abbrev pub sentinel : ℕ → Cell
sentinel at = record { at = at; size = 0; key = none; value = [] }

-- With two different blocks for the sentinels, init_cache makes a well-formed cache of no objects.
pub init_cache_lem :
    (head tail : ℕ) (mem : Memory)
    → head ≢ 0
    → tail ≢ 0
    → head ≢ tail
    → Ensures (λ _ s. IsCache s (sentinel head) (sentinel tail) []) (init_cache head tail mem)
unfolding init_cache set_next set_prev load
init_cache_lem head tail mem ne ne' apart =
    rw
      (
        ==-false tail head (λ e. apart (sym e)),
        ==-true head head refl,
        ==-false head tail apart,
        ==-true tail tail refl,
      )
      (record {
        linked = (ne, ground (arith, apart), ground (arith, apart), (ne', ground arith, refl, tt));
        head = refl;
        tail = refl;
        keyed = tt;
        size = refl;
        fits = omega arith;
      })

has-zero : (m : Memory) (prev stop : ℕ) (cs : List Cell) → Linked m prev cs stop → has 0 cs ≡ false
has-zero m prev stop [] l = refl
has-zero m prev stop (c ∷ cs) l = ground (arith, l.0, has-zero m c.at stop cs l.3)

out_of_front :
    (s : Store) (h c : Cell) (cs : List Cell) (t : Cell)
    → Linked s.mem 0 (h ∷ c ∷ cs ++ t ∷ []) 0
    → Unlinked s (unlink c.at) 0 0 h [] c (cs ++ t ∷ [])
out_of_front s h c [] t l = unlinked s 0 0 h [] c t [] l
out_of_front s h c (b ∷ cs) t l = unlinked s 0 0 h [] c b (cs ++ t ∷ []) l

-- At the tail sentinel the loop writes through the null pointer behind it.
delete-tail :
    (s : Store) (h t : Cell)
    → Linked s.mem 0 (h ∷ t ∷ []) 0
    → s.mem 0 ≡ none
    → delete_node t.at s ≡ fault
unfolding delete_node shrink unlink set_next set_prev load
delete-tail s h t l null = rw (
  l.3.1,
  l.3.1,
  l.1,
  update_ne s.mem h.at t.at (some (node_of h 0 0)) (λ e. absurd (ground (arith, l.2))),
  l.3.1,
  update_ne s.mem h.at 0 (some (node_of h 0 0)) (λ e. l.0 e),
  null,
)

free_loop-tail :
    (fuel : ℕ) (s : Store) (h t : Cell)
    → Linked s.mem 0 (h ∷ t ∷ []) 0
    → s.mem 0 ≡ none
    → free_loop (suc fuel) t.at s ≡ fault
unfolding free_loop load
free_loop-tail fuel s h t l null = rw (==-false t.at 0 l.3.0, l.3.1, delete-tail s h t l null)

free_loop-fault :
    (fuel : ℕ) (s : Store) (h t : Cell) (cs : List Cell)
    → Linked s.mem 0 (h ∷ cs ++ t ∷ []) 0
    → s.mem 0 ≡ none
    → length cs < fuel
    → free_loop fuel (first (cs ++ t ∷ []) 0) s ≡ fault
unfolding free_loop delete_node shrink free load
free_loop-fault zero s h t cs l null enough = absurd (omega arith)
free_loop-fault (suc fuel) s h t [] l null enough = free_loop-tail fuel s h t l null
free_loop-fault (suc fuel) s h t (c ∷ cs) l null enough =
    let s1 : Store = record s { list_size = (s.list_size + 2 ^ 64 - c.size) % 2 ^ 64 } in
    let u = out_of_front s1 h c cs t l in
    let (next, prev, here) = u.kept in
    let gone = update u.memory c.at none in
    let l' =
      frame u.memory gone 0 0 (h ∷ cs ++ t ∷ []) u.linked (λ a p. ground (arith, l.2, l.3.2)) in
    let null' : gone 0 ≡ none =
      update_ne u.memory c.at 0 none l.3.0
      ∙ u.others 0 (has-zero u.memory 0 0 (h ∷ cs ++ t ∷ []) u.linked)
      ∙ null in
    rw (==-false c.at 0 l.3.0, l.3.1, l.3.1, u.runs, here)
      (free_loop-fault fuel (record s1 { mem = gone }) h t cs l' null' (omega arith))

-- free_list faults on every well-formed cache, the empty one included, where nothing is at the null
-- pointer: its loop does not end at the tail sentinel but deletes it too, and there delete_node writes
-- to the node behind it.
pub free_list-faults :
    (fuel : ℕ) (s : Store) (h t : Cell) (cs : List Cell)
    → IsCache s h t cs
    → s.mem 0 ≡ none
    → length cs < fuel
    → free_list fuel s ≡ fault
unfolding free_list load
free_list-faults fuel s h t cs is null enough =
    rw (ap s.mem is.head ∙ is.linked.1, free_loop-fault fuel s h t cs is.linked null enough)
