-- ===== src/Cache/Links.antt =====
-- The doubly linked nodes of proxylab-s20-bhxxzp/cache.c in memory, and the writes that take a node out
-- and put one in front.
use cmu.Common.{
  ℕ, ◌≡◌, refl, ◌≢◌, ◌∙◌, sym, Bool, true, false, ◌||◌, Option, some, List, [], ◌∷◌, ◌++◌, arith,
  ◌==◌, update, update_ne, update_self,
}
use cmu.Cache.{Text, Node, Store, ok, load, set_next, set_prev, unlink, detach, link_front, C}

-- A node with its address.
pub record Cell : Type 0 where
  pub at : ℕ
  pub size : ℕ
  pub key : Option Text
  pub value : Text

abbrev pub node_of : Cell → (next prev : ℕ) → Node
node_of c next prev = record {
  node_size = c.size;
  key = c.key;
  value = c.value;
  next = next;
  prev = prev;
}

abbrev pub first : List Cell → ℕ → ℕ
first [] stop = stop
first (c ∷ cs) stop = c.at

abbrev pub has : ℕ → List Cell → Bool
has a [] = false
has a (c ∷ cs) = (a == c.at) || has a cs

abbrev pub Memory : Type 0
Memory = ℕ → Option Node

-- The nodes at distinct addresses, each linked to the next, the last one to `stop`, and back to the one
-- before, the first one to `prev`.
abbrev pub Linked : Memory → ℕ → List Cell → ℕ → Type 0
Linked m prev [] stop = Unit {0}
Linked m prev (c ∷ cs) stop =
    (c.at ≢ 0)
    × (m c.at ≡ some (node_of c (first cs stop) prev))
    × (has c.at cs ≡ false)
    × Linked m c.at cs stop

pub frame :
    (m g : Memory) (prev stop : ℕ) (cs : List Cell)
    → Linked m prev cs stop
    → ((a : ℕ) → has a cs ≡ true → g a ≡ m a)
    → Linked g prev cs stop
frame m g prev stop [] l same = tt
frame m g prev stop (c ∷ cs) l same = (
  l.0,
  same c.at (ground arith) ∙ l.1,
  l.2,
  frame m g c.at stop cs l.3 (λ a h. same a (ground arith)),
)

pub has-append : (a : ℕ) (cs ds : List Cell) → has a (cs ++ ds) ≡ (has a cs || has a ds)
has-append a [] ds = refl
has-append a (c ∷ cs) ds = ground (arith, has-append a cs ds)

-- What is left when the node `c` has been taken out.
pub record Unlinked (s : Store) (run : C (Unit {0})) (prev stop : ℕ) (a : Cell) (before : List Cell)
    (c : Cell) (rest : List Cell) : Type 0 where
  pub memory : Memory
  pub runs : run s ≡ ok tt (record s { mem = memory })
  pub linked : Linked memory prev (a ∷ before ++ rest) stop
  pub kept : (next : ℕ) × (prev' : ℕ) × (memory c.at ≡ some (node_of c next prev'))
  pub others : (x : ℕ) → has x (a ∷ before ++ rest) ≡ false → memory x ≡ s.mem x

module _ (s : Store) (prev stop : ℕ) (a c b : Cell) (bs : List Cell)
    (l : Linked s.mem prev (a ∷ c ∷ b ∷ bs) stop) where
  abbrev bypassed : Memory
  bypassed =
      update (update s.mem a.at (some (node_of a b.at prev))) b.at
        (some (node_of b (first bs stop) a.at))

  abbrev bypassed' : Memory
  bypassed' =
      update (update s.mem b.at (some (node_of b (first bs stop) a.at))) a.at
        (some (node_of a b.at prev))

  a_ne_c : a.at ≢ c.at
  a_ne_c e = absurd (ground (arith, l.2))

  a_ne_b : a.at ≢ b.at
  a_ne_b e = absurd (ground (arith, l.2))

  c_ne_b : c.at ≢ b.at
  c_ne_b e = absurd (ground (arith, l.3.2))

  unlink-runs : unlink c.at s ≡ ok tt (record s { mem = bypassed })
  unfolding unlink load set_next set_prev
  unlink-runs = rw (
    l.3.1,
    l.1,
    update_ne s.mem a.at c.at (some (node_of a b.at prev)) a_ne_c,
    l.3.1,
    update_ne s.mem a.at b.at (some (node_of a b.at prev)) a_ne_b,
    l.3.3.1,
  )

  detach-runs : detach c.at s ≡ ok tt (record s { mem = bypassed' })
  unfolding detach load set_next set_prev
  detach-runs = rw (
    l.3.1,
    l.3.3.1,
    update_ne s.mem b.at c.at (some (node_of b (first bs stop) a.at)) (λ e. c_ne_b (sym e)),
    l.3.1,
    update_ne s.mem b.at a.at (some (node_of b (first bs stop) a.at)) (λ e. a_ne_b (sym e)),
    l.1,
  )

  bypassed-Linked : Linked bypassed prev (a ∷ b ∷ bs) stop
  bypassed-Linked = (
    l.0,
    ground (arith, a_ne_b),
    ground (arith, l.2),
    (
      l.3.3.0,
      ground arith,
      l.3.3.2,
      frame s.mem bypassed b.at stop bs l.3.3.3 (λ x h. ground (arith, l.2, l.3.3.2)),
    ),
  )

  unlink-base : Unlinked s (unlink c.at) prev stop a [] c (b ∷ bs)
  unlink-base = record {
    memory = bypassed;
    runs = unlink-runs;
    linked = bypassed-Linked;
    kept = (b.at, a.at, ground (arith, a_ne_c, c_ne_b, l.3.1));
    others = λ x h. ground arith;
  }

  detach-base : Unlinked s (detach c.at) prev stop a [] c (b ∷ bs)
  detach-base = record {
    memory = bypassed';
    runs = detach-runs;
    linked =
        frame bypassed bypassed' prev stop (a ∷ b ∷ bs) bypassed-Linked
          (λ x h. ground (arith, a_ne_b));
    kept = (b.at, a.at, ground (arith, a_ne_c, c_ne_b, l.3.1));
    others = λ x h. ground arith;
  }

has-without :
    (x : ℕ) (before : List Cell) (c : Cell) (rest : List Cell)
    → has x (before ++ c ∷ rest) ≡ false
    → has x (before ++ rest) ≡ false
has-without x [] c rest h = ground arith
has-without x (d ∷ before) c rest h =
    let later = has-without x before c rest (ground arith) in ground (arith, later)

-- A node further along is taken out in the same way.
skipped :
    (s : Store) (run : C (Unit {0})) (prev stop : ℕ) (x a : Cell) (before : List Cell) (c : Cell)
    (rest : List Cell)
    → Linked s.mem prev (x ∷ a ∷ before ++ c ∷ rest) stop
    → Unlinked s run x.at stop a before c rest
    → Unlinked s run prev stop x (a ∷ before) c rest
skipped s run prev stop x a before c rest l u =
    let out = has-without x.at (a ∷ before) c rest l.2 in
    record {
      memory = u.memory;
      runs = u.runs;
      linked = (l.0, u.others x.at out ∙ l.1, out, u.linked);
      kept = u.kept;
      others = λ y h. u.others y (ground arith);
    }

pub unlinked :
    (s : Store) (prev stop : ℕ) (a : Cell) (before : List Cell) (c b : Cell) (bs : List Cell)
    → Linked s.mem prev (a ∷ before ++ c ∷ b ∷ bs) stop
    → Unlinked s (unlink c.at) prev stop a before c (b ∷ bs)
unlinked s prev stop a [] c b bs l = unlink-base s prev stop a c b bs l
unlinked s prev stop x (a ∷ before) c b bs l =
    skipped s (unlink c.at) prev stop x a before c (b ∷ bs) l
      (unlinked s x.at stop a before c b bs l.3)

pub detached :
    (s : Store) (prev stop : ℕ) (a : Cell) (before : List Cell) (c b : Cell) (bs : List Cell)
    → Linked s.mem prev (a ∷ before ++ c ∷ b ∷ bs) stop
    → Unlinked s (detach c.at) prev stop a before c (b ∷ bs)
detached s prev stop a [] c b bs l = detach-base s prev stop a c b bs l
detached s prev stop x (a ∷ before) c b bs l =
    skipped s (detach c.at) prev stop x a before c (b ∷ bs) l
      (detached s x.at stop a before c b bs l.3)

-- What is there when the node `c` has been put behind the first one, `h`.
pub record Fronted (s : Store) (stop : ℕ) (h c : Cell) (rest : List Cell) : Type 0 where
  pub memory : Memory
  pub runs : link_front c.at s ≡ ok tt (record s { mem = memory })
  pub linked : Linked memory 0 (h ∷ c ∷ rest) stop

module _ (s : Store) (stop : ℕ) (h c b : Cell) (bs : List Cell) (next prev : ℕ)
    (l : Linked s.mem 0 (h ∷ b ∷ bs) stop) (head : s.head ≡ h.at) (ne : c.at ≢ 0)
    (here : s.mem c.at ≡ some (node_of c next prev)) (new : has c.at (h ∷ b ∷ bs) ≡ false) where
  abbrev m1 : Memory
  m1 = update s.mem b.at (some (node_of b (first bs stop) c.at))

  abbrev m2 : Memory
  m2 = update m1 c.at (some (node_of c b.at prev))

  abbrev m3 : Memory
  m3 = update m2 h.at (some (node_of h c.at 0))

  abbrev m4 : Memory
  m4 = update m3 c.at (some (node_of c b.at h.at))

  h_ne_b : h.at ≢ b.at
  h_ne_b e = absurd (ground (arith, l.2))

  c_ne_h : c.at ≢ h.at
  c_ne_h e = absurd (ground (arith, new))

  c_ne_b' : c.at ≢ b.at
  c_ne_b' e = absurd (ground (arith, new))

  m1-h : m1 h.at ≡ some (node_of h b.at 0)
  m1-h = update_ne s.mem b.at h.at _ (λ e. h_ne_b (sym e)) ∙ l.1

  m1-c : m1 c.at ≡ some (node_of c next prev)
  m1-c = update_ne s.mem b.at c.at _ (λ e. c_ne_b' (sym e)) ∙ here

  m2-h : m2 h.at ≡ some (node_of h b.at 0)
  m2-h = update_ne m1 c.at h.at _ c_ne_h ∙ m1-h

  m3-c : m3 c.at ≡ some (node_of c b.at prev)
  m3-c = update_ne m2 h.at c.at _ (λ e. c_ne_h (sym e)) ∙ update_self m1 c.at _

  pub fronted : Fronted s stop h c (b ∷ bs)
  unfolding link_front load set_next set_prev
  fronted = record {
    memory = m4;
    runs = rw (head, l.1, l.3.1, m1-h, m1-c, m2-h, m3-c);
    linked = (
      l.0,
      ground (arith, c_ne_h),
      ground (arith, l.2, c_ne_h),
      (
        ne,
        update_self m3 c.at _,
        ground (arith, new),
        (
          l.3.0,
          ground (arith, c_ne_b', h_ne_b),
          l.3.2,
          frame s.mem m4 b.at stop bs l.3.3 (λ x p. ground (arith, new, l.2, l.3.2)),
        ),
      ),
    );
  }
