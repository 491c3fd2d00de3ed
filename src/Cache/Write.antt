-- ===== src/Cache/Write.antt =====
-- write_node of proxylab-s20-bhxxzp/cache.c: the new object in front, and room made from the end.
use cmu.Common.{
  ℕ, zero, suc, ◌+◌, ◌-◌, ◌%◌, ◌≤◌, ◌<◌, ◌≡◌, refl, ◌≢◌, ◌∙◌, sym, ap, subst, inl, inr, false,
  Option, none, some, List, [], ◌∷◌, ◌++◌, arith, leb, if◌then◌else◌, length, length-append, All,
  Bool-cases, ==-false, ne_of_==, ◌^◌, update, update_ne, update_self, take, leb-true, leb-false,
  le_of_leb, lt_of_leb,
}
use cmu.Cache.{
  Text, Store, ok, load, free, shrink, delete_node, add_front, evict, write_node, max_cache_size,
}
use cmu.Cache.Links.{Cell, node_of, first, has, Memory, Linked, frame, has-append, unlinked}
use cmu.Cache.Lookup.{
  Ensures, total, IsKeyed, IsCache, find_key, key_eq, search-eq, append_assoc, into_front, distinct,
  total-append,
}

abbrev pub last_at : List Cell → ℕ → ℕ
last_at [] p = p
last_at (c ∷ cs) p = last_at cs c.at

-- The longest first part of the list that fits in `budget`.
abbrev pub prefix : ℕ → List Cell → List Cell
prefix budget [] = []
prefix budget (c ∷ cs) = if leb c.size budget then c ∷ prefix (budget - c.size) cs else []

prefix-all : (budget : ℕ) (cs : List Cell) → total cs ≤ budget → prefix budget cs ≡ cs
prefix-all budget [] h = refl
prefix-all budget (c ∷ cs) h =
    rw (leb-true c.size budget (omega arith))
      (ap (λ l. c ∷ l) (prefix-all (budget - c.size) cs (omega arith)))

-- If the whole list does not fit, its last object is not needed.
prefix-snoc :
    (budget : ℕ) (cs : List Cell) (c : Cell)
    → budget < total (cs ++ c ∷ [])
    → prefix budget (cs ++ c ∷ []) ≡ prefix budget cs
prefix-snoc budget [] c h = rw (leb-false c.size budget (omega arith))
prefix-snoc budget (d ∷ cs) c h = elim (Bool-cases (leb d.size budget)) [
  | inl fits ↦
      let le = le_of_leb d.size budget fits in
      rw fits (ap (λ l. d ∷ l) (prefix-snoc (budget - d.size) cs c (omega arith)))
  | inr no_room ↦ rw no_room
]

at-split :
    (m : Memory) (prev stop : ℕ) (before : List Cell) (c : Cell) (rest : List Cell)
    → Linked m prev (before ++ c ∷ rest) stop
    → m c.at ≡ some (node_of c (first rest stop) (last_at before prev))
at-split m prev stop [] c rest l = l.1
at-split m prev stop (d ∷ before) c rest l = at-split m d.at stop before c rest l.3

has-none :
    (m : Memory) (prev stop x : ℕ) (cs : List Cell)
    → Linked m prev cs stop
    → m x ≡ none
    → has x cs ≡ false
has-none m prev stop x [] l e = refl
has-none m prev stop x (c ∷ cs) l e = ground (arith, l.1, has-none m c.at stop x cs l.3 e)

last_at-snoc : (cs : List Cell) (c : Cell) (p : ℕ) → last_at (cs ++ c ∷ []) p ≡ c.at
last_at-snoc [] c p = refl
last_at-snoc (d ∷ cs) c p = last_at-snoc cs c d.at

All-snoc : (cs : List Cell) (c : Cell) → All IsKeyed (cs ++ c ∷ []) → All IsKeyed cs
All-snoc [] c k = tt
All-snoc (d ∷ cs) c k = (k.0, All-snoc cs c k.1)

-- Taking out the last object.
module _ (s : Store) (h t c : Cell) (cs : List Cell) (is : IsCache s h t (cs ++ c ∷ [])) where
  abbrev whole : Linked s.mem 0 (h ∷ cs ++ (c ∷ t ∷ [])) 0
  whole = subst (λ xs. Linked s.mem 0 (h ∷ xs) 0) (append_assoc cs (c ∷ []) (t ∷ [])) is.linked

  last_node : s.mem c.at ≡ some (node_of c t.at (last_at cs h.at))
  last_node = at-split s.mem 0 0 (h ∷ cs) c (t ∷ []) whole

  pub tail_node : s.mem t.at ≡ some (node_of t 0 c.at)
  tail_node =
      at-split s.mem 0 0 (h ∷ cs ++ c ∷ []) t [] is.linked
      ∙ ap (λ p. some (node_of t 0 p)) (last_at-snoc cs c h.at)

  record Deleted (x : ℕ) : Type 0 where
    after : Store
    runs : delete_node c.at s ≡ ok tt after
    cache : IsCache after h t cs
    same : after.mem x ≡ s.mem x

  -- The address `x` is outside the list.
  outside_ne : (x : ℕ) → has x (h ∷ (cs ++ c ∷ []) ++ t ∷ []) ≡ false → x ≢ c.at
  outside_ne x out =
      ne_of_== x c.at
        (ground (arith, has-append x (cs ++ c ∷ []) (t ∷ []), has-append x cs (c ∷ [])))

  abbrev smaller_store : Store
  smaller_store = record s { list_size = (s.list_size + 2 ^ 64 - c.size) % 2 ^ 64 }

  deleted : (x : ℕ) → has x (h ∷ (cs ++ c ∷ []) ++ t ∷ []) ≡ false → Deleted x
  unfolding delete_node shrink free load
  deleted x out =
      let u = unlinked smaller_store 0 0 h cs c t [] whole in
      let (next, prev, here) = u.kept in
      let (alone, ne) = distinct s.mem 0 0 (h ∷ cs) c (t ∷ []) whole in
      let sum = total-append cs (c ∷ []) in
      let smaller : total cs + c.size ≡ total (cs ++ c ∷ []) = omega (arith, sum) in
      let out' : has x (h ∷ cs ++ t ∷ []) ≡ false = ground (
        arith,
        has-append x cs (c ∷ []),
        has-append x (cs ++ c ∷ []) (t ∷ []),
        has-append x cs (t ∷ []),
      ) in
      let apart = outside_ne x out in
      record {
        after = record smaller_store { mem = update u.memory c.at none };
        runs = rw (last_node, u.runs, ==-false c.at 0 ne, here);
        cache = record {
          linked =
              frame u.memory (update u.memory c.at none) 0 0 (h ∷ cs ++ t ∷ []) u.linked
                (λ a p. ground (arith, alone));
          head = is.head;
          tail = is.tail;
          keyed = All-snoc cs c is.keyed;
          size = omega (arith, is.size, is.fits, smaller);
          fits = omega (arith, is.fits, smaller);
        };
        same = update_ne u.memory c.at x none (λ e. apart (sym e)) ∙ u.others x out';
      }

-- A node that is in no list yet, with the address of its block.
record IsNew (s : Store) (h t new : Cell) (cs : List Cell) : Type 0 where
  at : new.at ≢ 0
  here : s.mem new.at ≡ some (node_of new 0 0)
  out : has new.at (h ∷ cs ++ t ∷ []) ≡ false
  key : IsKeyed new

-- Putting the new object in front, when there is room.
add_front-IsCache :
    (s : Store) (h t new : Cell) (cs : List Cell)
    → IsCache s h t cs
    → IsNew s h t new cs
    → total cs + new.size ≤ max_cache_size
    → Ensures (λ _ s'. IsCache s' h t (new ∷ cs)) (add_front new.at new.size s)
unfolding add_front
add_front-IsCache s h t new cs is n room =
    let f =
      into_front (record s { list_size = (s.list_size + new.size) % 2 ^ 64 }) h new cs t 0 0
        is.linked is.head n.at n.here n.out in
    rw f.runs (record {
      linked = f.linked;
      head = is.head;
      tail = is.tail;
      keyed = (n.key, is.keyed);
      size = omega (arith, is.size);
      fits = omega arith;
    })

record Snoc (cs : List Cell) : Type 0 where
  start : List Cell
  last : Cell
  whole : cs ≡ start ++ last ∷ []

snoc : (c : Cell) (cs : List Cell) → Snoc (c ∷ cs)
snoc c [] = record { start = []; last = c; whole = refl }
snoc c (d ∷ cs) =
    let r = snoc d cs in
    record { start = c ∷ r.start; last = r.last; whole = ap (λ l. c ∷ l) r.whole }

ending_of : (cs : List Cell) → 0 < total cs → Snoc cs
ending_of [] h = absurd (omega arith)
ending_of (c ∷ cs) h = snoc c cs

module _ (h t new : Cell) (small : new.size ≤ max_cache_size) where
  -- The objects that stay beside the new one.
  abbrev pub kept_of : List Cell → List Cell
  kept_of cs = prefix (max_cache_size - new.size) cs

  abbrev pub Begins : List Cell → Unit {0} → Store → Type 0
  Begins ks u s' = IsCache s' h t (new ∷ ks)

  abbrev pub Written : List Cell → Unit {0} → Store → Type 0
  Written cs = Begins (kept_of cs)

  evict-step :
      (fuel : ℕ) (s : Store) (start : List Cell) (last : Cell)
      → IsCache s h t (start ++ last ∷ [])
      → IsNew s h t new (start ++ last ∷ [])
      → max_cache_size < total (start ++ last ∷ []) + new.size
      → ((s' : Store)
          → IsCache s' h t start
          → IsNew s' h t new start
          → max_cache_size < total start + new.size
          → Ensures (Written start) (evict fuel new.at new.size (last_at start h.at) s'))
      → Ensures
          (Written (start ++ last ∷ []))
          (evict (suc fuel) new.at new.size (last_at (start ++ last ∷ []) h.at) s)
  unfolding evict load
  evict-step fuel s start last is n big ih =
      let d = deleted s h t last start is new.at n.out in
      let ne = (distinct s.mem 0 0 (h ∷ start) last (t ∷ []) (whole s h t last start is)).1 in
      let dropped = prefix-snoc (max_cache_size - new.size) start last (omega (arith, big)) in
      let n' : IsNew d.after h t new start = record {
        at = n.at;
        here = d.same ∙ n.here;
        out = ground (
          arith,
          n.out,
          has-append new.at start (last ∷ []),
          has-append new.at (start ++ last ∷ []) (t ∷ []),
          has-append new.at start (t ∷ []),
        );
        key = n.key;
      } in
      let sum : (d.after.list_size + new.size) % 2 ^ 64 ≡ total start + new.size =
        omega (arith, d.cache.size, d.cache.fits) in
      subst
        (λ ks.
          Ensures (Begins ks)
            (evict (suc fuel) new.at new.size (last_at (start ++ last ∷ []) h.at) s))
        (sym dropped)
        (rw
          (
            last_at-snoc start last h.at,
            ==-false last.at 0 ne,
            last_node s h t last start is,
            d.runs,
            sum,
          )
          (elim (Bool-cases (leb (total start + new.size) max_cache_size)) [
            | inl room ↦
                let le = le_of_leb (total start + new.size) max_cache_size room in
                rw room (
                  subst (λ ks. Ensures (Begins ks) (add_front new.at new.size d.after))
                    (sym (prefix-all (max_cache_size - new.size) start (omega arith)))
                    (add_front-IsCache d.after h t new start d.cache n' le))
            | inr full ↦
                rw full
                  (ih d.after d.cache n' (lt_of_leb (total start + new.size) max_cache_size full))
          ]))

  evict-IsCache :
      (fuel : ℕ) (s : Store) (cs : List Cell)
      → IsCache s h t cs
      → IsNew s h t new cs
      → max_cache_size < total cs + new.size
      → length cs < fuel
      → Ensures (Written cs) (evict fuel new.at new.size (last_at cs h.at) s)
  evict-IsCache zero s cs is n big enough = absurd (omega arith)
  evict-IsCache (suc fuel) s cs is n big enough =
      let v = ending_of cs (omega arith) in
      let step =
        evict-step fuel s v.start v.last (subst (IsCache s h t) v.whole is)
          (subst (IsNew s h t new) v.whole n)
          (subst (λ xs. max_cache_size < total xs + new.size) v.whole big)
          (λ s' is' n' big'.
            evict-IsCache fuel s' v.start is' n' big'
              (omega (arith, ap length v.whole, length-append v.start (v.last ∷ [])))) in
      subst (λ xs. Ensures (Written xs) (evict (suc fuel) new.at new.size (last_at xs h.at) s))
        (sym v.whole) step

found_ne_zero :
    (m : Memory) (prev : ℕ) (key : Text) (c t : Cell) (cs : List Cell)
    → Linked m prev (cs ++ t ∷ []) 0
    → find_key key cs ≡ some c
    → c.at ≢ 0
found_ne_zero m prev key c t [] l e = absurd (cc)
found_ne_zero m prev key c t (d ∷ cs) l e = elim (Bool-cases (key_eq key d.key)) [
  | inl hit ↦ subst (λ x. x.at ≢ 0) (some_inj (rw hit at e)) l.0
  | inr miss ↦ found_ne_zero m d.at key c t cs l.3 (rw miss at e)
]
  where
    some_inj : {x y : Cell} → some x ≡ some y → x ≡ y
    some_inj p = cc

-- What write_node makes of the list.
abbrev pub written : Option Cell → Cell → List Cell → List Cell
written none new cs = new ∷ prefix (max_cache_size - new.size) cs
written (some c) new cs = cs

-- The object that write_node makes.
abbrev pub object : (at : ℕ) → (key value : Text) → (size : ℕ) → Cell
object at key value size = record { at = at; size = size; key = some key; value = take size value }

module _ (fuel : ℕ) (s : Store) (h t : Cell) (cs : List Cell) (is : IsCache s h t cs)
    (enough : length cs < fuel) (at : ℕ) (key value : Text) (size : ℕ) (ne : at ≢ 0)
    (free : s.mem at ≡ none) (small : size ≤ max_cache_size) where
  abbrev new_cell : Cell
  new_cell = object at key value size

  abbrev with_new : Store
  with_new = record s { mem = update s.mem at (some (node_of new_cell 0 0)) }

  outside : has at (h ∷ cs ++ t ∷ []) ≡ false
  outside = has-none s.mem 0 0 at (h ∷ cs ++ t ∷ []) is.linked free

  with_new-IsCache : IsCache with_new h t cs
  with_new-IsCache = record {
    linked =
        frame s.mem with_new.mem 0 0 (h ∷ cs ++ t ∷ []) is.linked (λ a p. ground (arith, outside));
    head = is.head;
    tail = is.tail;
    keyed = is.keyed;
    size = is.size;
    fits = is.fits;
  }

  with_new-IsNew : IsNew with_new h t new_cell cs
  with_new-IsNew = record {
    at = ne;
    here = update_self s.mem at (some (node_of new_cell 0 0));
    out = outside;
    key = refl;
  }

  sum : (s.list_size + size) % 2 ^ 64 ≡ total cs + size
  sum = omega (arith, is.size, is.fits)

  tail_load : with_new.mem s.tail ≡ some (node_of t 0 (last_at cs h.at))
  tail_load =
      ap with_new.mem is.tail ∙ at-split with_new.mem 0 0 (h ∷ cs) t [] with_new-IsCache.linked

  absent :
      find_key key cs ≡ none
      → Ensures (Written h t new_cell small cs) (write_node fuel at key value size s)
  unfolding write_node load
  absent e =
      rw
        (
          ap s.mem is.head ∙ is.linked.1,
          search-eq fuel key s h.at t cs is.linked.3 is.keyed is.tail enough,
          e,
          sum,
        )
        (elim (Bool-cases (leb (total cs + size) max_cache_size)) [
          | inl room ↦
              let le = le_of_leb (total cs + size) max_cache_size room in
              rw room (
                subst (λ ks. Ensures (Begins h t new_cell small ks) (add_front at size with_new))
                  (sym (prefix-all (max_cache_size - size) cs (omega arith)))
                  (add_front-IsCache with_new h t new_cell cs with_new-IsCache with_new-IsNew le))
          | inr full ↦
              rw (full, tail_load)
                (evict-IsCache h t new_cell small fuel with_new cs with_new-IsCache with_new-IsNew
                  (lt_of_leb (total cs + size) max_cache_size full) enough)
        ])

  present : (c : Cell) → find_key key cs ≡ some c → write_node fuel at key value size s ≡ ok tt s
  unfolding write_node load
  present c e = rw (
    ap s.mem is.head ∙ is.linked.1,
    search-eq fuel key s h.at t cs is.linked.3 is.keyed is.tail enough,
    e,
    ==-false c.at 0 (found_ne_zero s.mem h.at key c t cs is.linked.3 e),
  )

-- On a well-formed cache, with rounds enough for its objects, a new block and an object of at most the
-- size of the cache, write_node changes nothing at all, neither the memory nor the size, if the key is
-- there. Otherwise the object, `size` bytes of the value, becomes the first of the list, and behind it stays the longest first part of the list, that is, of the objects
-- used last, for which there is room beside it; the cache is well formed, its links, its size and its
-- bound included. (The loop that makes room ends, and it frees no sentinel.)
pub write_node_lem :
    (fuel : ℕ) (s : Store) (h t : Cell) (cs : List Cell) (at : ℕ) (key value : Text) (size : ℕ)
    → IsCache s h t cs
    → length cs < fuel
    → at ≢ 0
    → s.mem at ≡ none
    → size ≤ max_cache_size
    → Ensures
        (λ _ s'. IsCache s' h t (written (find_key key cs) (object at key value size) cs))
        (write_node fuel at key value size s)
      × (find_key key cs ≢ none → write_node fuel at key value size s ≡ ok tt s)
write_node_lem fuel s h t cs at key value size is enough ne free small =
    by_find (find_key key cs) refl
  where
    by_find :
        (o : Option Cell)
        → find_key key cs ≡ o
        → Ensures
            (λ _ s'. IsCache s' h t (written o (object at key value size) cs))
            (write_node fuel at key value size s)
          × (o ≢ none → write_node fuel at key value size s ≡ ok tt s)
    by_find none e = (
      absent fuel s h t cs is enough at key value size ne free small e,
      λ there. absurd (there refl),
    )
    by_find (some c) e =
        let p = present fuel s h t cs is enough at key value size ne free small c e in
        (rw p is, λ there. p)
