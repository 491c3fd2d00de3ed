-- ===== src/Cache/Lookup.antt =====
-- get_value of proxylab-s20-bhxxzp/cache.c against a list of objects, the latest used first.
use cmu.Common.{
  ℕ, zero, suc, ◌+◌, ◌≤◌, ◌<◌, ◌≡◌, refl, ◌≢◌, ◌∙◌, sym, ap, subst, inl, inr, Bool, true, false,
  Option, none, some, is_some, List, [], ◌∷◌, ◌++◌, arith, if◌then◌else◌, length, All, Bool-cases,
  ==-false, ==-true,
}
use cmu.Cache.{
  Text, Store, Run, ok, fault, out_of_fuel, load, search, same_key, find_node, get_value, detach,
  max_cache_size, text_eq,
}
use cmu.Cache.Links.{
  Cell, node_of, first, has, Memory, Linked, has-append, Unlinked, detached, Fronted, fronted,
}

-- The call returns, and what it returns satisfies `P`.
abbrev pub Ensures : {A : Type 0} → (A → Store → Type 0) → Run A → Type 0
Ensures P (ok a s) = P a s
Ensures P fault = ⊥
Ensures P out_of_fuel = ⊥

abbrev pub total : List Cell → ℕ
total [] = 0
total (c ∷ cs) = c.size + total cs

abbrev pub IsKeyed : Cell → Type 0
IsKeyed c = is_some c.key ≡ true

-- A cache between two calls: the sentinels `h` and `t` and between them the objects, the latest used
-- first, linked both ways; the size is theirs and within the bound.
pub record IsCache (s : Store) (h t : Cell) (cs : List Cell) : Type 0 where
  pub linked : Linked s.mem 0 (h ∷ cs ++ t ∷ []) 0
  pub head : s.head ≡ h.at
  pub tail : s.tail ≡ t.at
  pub keyed : All IsKeyed cs
  pub size : s.list_size ≡ total cs
  pub fits : total cs ≤ max_cache_size

abbrev pub key_eq : Text → Option Text → Bool
key_eq key none = false
key_eq key (some k) = text_eq key k

-- The object with the key, and the list without it.
abbrev pub find_key : Text → List Cell → Option Cell
find_key key [] = none
find_key key (c ∷ cs) = if key_eq key c.key then some c else find_key key cs

abbrev pub without : Text → List Cell → List Cell
without key [] = []
without key (c ∷ cs) = if key_eq key c.key then cs else c ∷ without key cs

abbrev pub put_front : Option Cell → List Cell → List Cell → List Cell
put_front none cs rest = cs
put_front (some c) cs rest = c ∷ rest

-- The list after a use of the key.
abbrev pub used_last : Text → List Cell → List Cell
used_last key cs = put_front (find_key key cs) cs (without key cs)

abbrev pub at_of : Option Cell → ℕ
at_of none = 0
at_of (some c) = c.at

abbrev pub answer : Option Cell → Option (Text × ℕ)
answer none = none
answer (some c) = some (c.value, c.size)

same_key-eq :
    (key : Text) (k : Option Text) (s : Store)
    → is_some k ≡ true
    → same_key key k s ≡ ok (key_eq key k) s
unfolding same_key
same_key-eq key none s h = absurd (cc)
same_key-eq key (some k) s h = refl

pub ne_tail :
    (m : Memory) (prev : ℕ) (c : Cell) (cs : List Cell) (t : Cell)
    → Linked m prev (c ∷ cs ++ t ∷ []) 0
    → c.at ≢ t.at
ne_tail m prev c cs t l e = absurd (ground (arith, l.2, has-append c.at cs (t ∷ [])))

-- The loop gives the address of the first node with the key.
pub search-eq :
    (fuel : ℕ) (key : Text) (s : Store) (prev : ℕ) (t : Cell) (cs : List Cell)
    → Linked s.mem prev (cs ++ t ∷ []) 0
    → All IsKeyed cs
    → s.tail ≡ t.at
    → length cs < fuel
    → search fuel key (first (cs ++ t ∷ []) 0) s ≡ ok (at_of (find_key key cs)) s
unfolding search load
search-eq zero key s prev t cs l k tail fuel = absurd (omega arith)
search-eq (suc fuel) key s prev t [] l k tail enough = rw (==-true t.at s.tail (sym tail))
search-eq (suc fuel) key s prev t (c ∷ cs) l k tail enough =
    rw
      (
        ==-false c.at s.tail (λ e. ne_tail s.mem prev c cs t l (e ∙ tail)),
        l.1,
        same_key-eq key c.key s k.0,
      )
      (elim (Bool-cases (key_eq key c.key)) [
        | inl hit ↦ rw hit
        | inr miss ↦ rw miss (search-eq fuel key s c.at t cs l.3 k.1 tail (omega arith))
      ])

-- Where the object stands in the list.
record Split (key : Text) (cs : List Cell) (c : Cell) : Type 0 where
  before : List Cell
  rest : List Cell
  whole : cs ≡ before ++ c ∷ rest
  others : without key cs ≡ before ++ rest

Split-find_key :
    (key : Text) (c : Cell) (cs : List Cell) → find_key key cs ≡ some c → Split key cs c
Split-find_key key c [] e = absurd (cc)
Split-find_key key c (d ∷ cs) e = elim (Bool-cases (key_eq key d.key)) [
  | inl hit ↦
      let same : d ≡ c = some_inj (rw hit at e) in
      record { before = []; rest = cs; whole = ap (λ x. x ∷ cs) same; others = rw hit refl }
  | inr miss ↦
      let r = Split-find_key key c cs (rw miss at e) in
      record {
        before = d ∷ r.before;
        rest = r.rest;
        whole = ap (λ l. d ∷ l) r.whole;
        others = rw miss (ap (λ l. d ∷ l) r.others);
      }
]
  where
    some_inj : {x y : Cell} → some x ≡ some y → x ≡ y
    some_inj p = cc

pub append_assoc : (xs ys zs : List Cell) → (xs ++ ys) ++ zs ≡ xs ++ (ys ++ zs)
append_assoc [] ys zs = refl
append_assoc (x ∷ xs) ys zs = ap (λ l. x ∷ l) (append_assoc xs ys zs)

pub total-append : (xs ys : List Cell) → total (xs ++ ys) ≡ total xs + total ys
total-append [] ys = omega arith
total-append (x ∷ xs) ys = omega (arith, total-append xs ys)

-- A node of the list stands at no other's address.
pub distinct :
    (m : Memory) (prev stop : ℕ) (before : List Cell) (c : Cell) (rest : List Cell)
    → Linked m prev (before ++ c ∷ rest) stop
    → (has c.at (before ++ rest) ≡ false) × (c.at ≢ 0)
distinct m prev stop [] c rest l = (l.2, l.0)
distinct m prev stop (d ∷ before) c rest l =
    let (out, ne) = distinct m d.at stop before c rest l.3 in
    (ground (arith, l.2, out, has-append d.at before (c ∷ rest)), ne)

-- The two routines on a list that ends in the tail sentinel.
pub detached_in :
    (s : Store) (h : Cell) (before : List Cell) (c : Cell) (rest : List Cell) (t : Cell)
    → Linked s.mem 0 (h ∷ before ++ (c ∷ rest ++ t ∷ [])) 0
    → Unlinked s (detach c.at) 0 0 h before c (rest ++ t ∷ [])
detached_in s h before c [] t l = detached s 0 0 h before c t [] l
detached_in s h before c (b ∷ rest) t l = detached s 0 0 h before c b (rest ++ t ∷ []) l

pub into_front :
    (s : Store) (h c : Cell) (cs : List Cell) (t : Cell) (next prev : ℕ)
    → Linked s.mem 0 (h ∷ cs ++ t ∷ []) 0
    → s.head ≡ h.at
    → c.at ≢ 0
    → s.mem c.at ≡ some (node_of c next prev)
    → has c.at (h ∷ cs ++ t ∷ []) ≡ false
    → Fronted s 0 h c (cs ++ t ∷ [])
into_front s h c [] t next prev l head ne here new =
    fronted s 0 h c t [] next prev l head ne here new
into_front s h c (b ∷ cs) t next prev l head ne here new =
    fronted s 0 h c b (cs ++ t ∷ []) next prev l head ne here new

-- With the object in front, the list holds the same objects.
taken :
    (key : Text) (c : Cell) (cs : List Cell)
    → find_key key cs ≡ some c
    → All IsKeyed cs
    → All IsKeyed (c ∷ without key cs) × (total cs ≡ c.size + total (without key cs))
taken key c [] e k = absurd (cc)
taken key c (d ∷ cs) e k = elim (Bool-cases (key_eq key d.key)) [
  | inl hit ↦
      let same : d ≡ c = some_inj (rw hit at e) in
      rw hit ((subst IsKeyed same k.0, k.1), ap (λ x. x.size + total cs) same)
  | inr miss ↦
      let (ks, sum) = taken key c cs (rw miss at e) k.1 in
      rw miss ((ks.0, (k.0, ks.1)), omega (arith, sum))
]
  where
    some_inj : {x y : Cell} → some x ≡ some y → x ≡ y
    some_inj p = cc

-- An object in use is looked up and put in front.
module _ (fuel : ℕ) (key : Text) (s : Store) (h t : Cell) (cs : List Cell) (is : IsCache s h t cs)
    (enough : length cs < fuel) where
  found :
      (c : Cell)
      → find_key key cs ≡ some c
      → Ensures
          (λ r s'. (r ≡ some (c.value, c.size)) × IsCache s' h t (c ∷ without key cs))
          (get_value fuel key s)
  unfolding get_value find_node load
  found c e =
      let p = Split-find_key key c cs e in
      let taken_out = taken key c cs e is.keyed in
      let l : Linked s.mem 0 (h ∷ p.before ++ (c ∷ p.rest ++ t ∷ [])) 0 =
        subst (λ xs. Linked s.mem 0 (h ∷ xs) 0)
          (ap (λ xs. xs ++ t ∷ []) p.whole ∙ append_assoc p.before (c ∷ p.rest) (t ∷ []))
          is.linked in
      let (out, ne) = distinct s.mem 0 0 (h ∷ p.before) c (p.rest ++ t ∷ []) l in
      let u = detached_in s h p.before c p.rest t l in
      let s1 : Store = record s { mem = u.memory } in
      let same : p.before ++ (p.rest ++ t ∷ []) ≡ without key cs ++ t ∷ [] =
        sym (append_assoc p.before p.rest (t ∷ [])) ∙ ap (λ xs. xs ++ t ∷ []) (sym p.others) in
      let l1 = subst (λ xs. Linked u.memory 0 (h ∷ xs) 0) same u.linked in
      let (next, prev, here) = u.kept in
      let new = subst (λ xs. has c.at (h ∷ xs) ≡ false) same out in
      let f = into_front s1 h c (without key cs) t next prev l1 is.head ne here new in
      rw
        (
          ap s.mem is.head ∙ is.linked.1,
          search-eq fuel key s h.at t cs is.linked.3 is.keyed is.tail enough,
          e,
          ==-false c.at 0 ne,
          u.runs,
          f.runs,
          ==-false c.at 0 ne,
          f.linked.3.1,
        )
        (
          refl,
          record {
            linked = f.linked;
            head = is.head;
            tail = is.tail;
            keyed = taken_out.0;
            size = is.size ∙ taken_out.1;
            fits = omega (arith, is.fits, taken_out.1);
          },
        )

  missed : find_key key cs ≡ none → get_value fuel key s ≡ ok none s
  unfolding get_value find_node load
  missed e = rw (
    ap s.mem is.head ∙ is.linked.1,
    search-eq fuel key s h.at t cs is.linked.3 is.keyed is.tail enough,
    e,
  )

-- On a well-formed cache, with rounds enough for its objects, get_value answers as a search of the
-- list does: the value and the size of the object with the key, or nothing. The object is then the
-- first of the list, the others stand in the order that they had, and the cache is well formed, its
-- links, its size and its bound included. If there is no such object, nothing changes.
pub get_value_lem :
    (fuel : ℕ) (key : Text) (s : Store) (h t : Cell) (cs : List Cell)
    → IsCache s h t cs
    → length cs < fuel
    → Ensures
        (λ r s'. (r ≡ answer (find_key key cs)) × IsCache s' h t (used_last key cs))
        (get_value fuel key s)
get_value_lem fuel key s h t cs is enough = by_find (find_key key cs) refl
  where
    by_find :
        (o : Option Cell)
        → find_key key cs ≡ o
        → Ensures
            (λ r s'. (r ≡ answer (find_key key cs)) × IsCache s' h t (used_last key cs))
            (get_value fuel key s)
    by_find none e = rw (missed fuel key s h t cs is enough e, e) (refl, is)
    by_find (some c) e = rw e (found fuel key s h t cs is enough c e)
