-- ===== src/Csim/Row.antt =====
-- One access to a row of the cache in cachelab-s20-bhxxzp/csim.c.
use cmu.Common.{
  ℕ, zero, suc, ◌+◌, ◌^◌, ◌≤◌, ◌<◌, ◌≡◌, refl, ◌≢◌, ◌⊎◌, inl, inr, Bool, true, false, ◌&&◌, Option,
  none, some, if◌then◌else◌, arith, Bool-cases, eq_of_==,
}
use cmu.Common.Int.{ℤ, pos, negsuc, eqb_ℤ, ltb_ℤ, dec}
use cmu.Common.Search.{find_index, find_index-none, find_index-some, find_index-found}
use cmu.Csim.{
  Row, matches, invalid, hit_row, fill_row, min_lru, victim, evict_row, hit, miss, miss_eviction,
  Stats, Result, evict, on_miss, access_row,
}

-- A row between two accesses: the valid bits are bits, no two valid lines have the same tag, and no
-- age is above `E`.
pub record IsRow (e : ℕ) (row : Row) : Type 0 where
  pub bits : (i : ℕ) → i < e → ((row i).valid ≡ 0) ⊎ ((row i).valid ≡ 1)
  pub unique :
      (i k : ℕ)
      → i < e
      → k < e
      → (row i).valid ≡ 1
      → (row k).valid ≡ 1
      → (row i).tag ≡ (row k).tag
      → i ≡ k
  pub aged : (i : ℕ) → i < e → ltb_ℤ (row i).lru (pos (e + 1)) ≡ true

eqb_ℤ_refl : (a : ℤ) → eqb_ℤ a a ≡ true
eqb_ℤ_refl (pos a) = ground arith
eqb_ℤ_refl (negsuc a) = ground arith

dec_aged : (e : ℕ) (a : ℤ) → ltb_ℤ a (pos (e + 1)) ≡ true → ltb_ℤ (dec a) (pos (e + 1)) ≡ true
dec_aged e (pos zero) h = refl
dec_aged e (pos (suc a)) h = ground arith
dec_aged e (negsuc a) h = refl

-- The least age is the start value or the age of a line.
min_lru-attained :
    (row : Row) (h rounds : ℕ) (m : ℤ)
    → (min_lru row h rounds m ≡ m)
      ⊎ ((j : ℕ) × (h ≤ j) × (j < h + rounds) × (min_lru row h rounds m ≡ (row j).lru))
unfolding min_lru
min_lru-attained row h zero m = inl refl
min_lru-attained row h (suc rounds) m = elim (Bool-cases (ltb_ℤ (row h).lru m)) [
  | inl less ↦ elim (min_lru-attained row (suc h) rounds (row h).lru) [
    | inl e ↦ inr (h, omega arith, omega arith, rw less e)
    | inr (j, lo, hi, e) ↦ inr (j, omega arith, omega arith, rw less e)
  ]
  | inr more ↦ elim (min_lru-attained row (suc h) rounds m) [
    | inl e ↦ inl (rw more e)
    | inr (j, lo, hi, e) ↦ inr (j, omega arith, omega arith, rw more e)
  ]
]

-- With a line there and no age above `E`, the search for a line to replace succeeds.
victim-found :
    (e : ℕ) (row : Row) → 0 < e → IsRow e row → (j : ℕ) × (victim e row ≡ some j) × (j < e)
unfolding victim min_lru
victim-found zero row pos_e v = absurd (omega arith)
victim-found (suc e) row pos_e v =
    let oldest = min_lru row 0 (suc e) (pos (suc e + 1)) in
    let (k, hi, at_k) = found in
    let (j, is) =
      find_index-found (λ j. eqb_ℤ (row j).lru oldest) 0 (suc e) k (omega arith) (omega (arith, hi))
        (rw at_k (eqb_ℤ_refl (row k).lru)) in
    (j, is, omega (arith, (find_index-some (λ j. eqb_ℤ (row j).lru oldest) 0 (suc e) j is).2))
  where
    found : (k : ℕ) × (k < suc e) × (min_lru row 0 (suc e) (pos (suc e + 1)) ≡ (row k).lru)
    found = rw (v.aged 0 (omega arith)) (elim (min_lru-attained row 1 e (row 0).lru) [
      | inl e0 ↦ (0, omega arith, e0)
      | inr (j, lo, hi, e1) ↦ (j, omega arith, e1)
    ])

access_row-hit :
    (e b tag i : ℕ) (store : Bool) (row : Row) (s : Stats)
    → find_index (matches row tag) 0 e ≡ some i
    → access_row e b tag store row s
      ≡ record { row = hit_row e row i store; stats = record s { hits = s.hits + 1 }; kind = hit }
unfolding access_row
access_row-hit e b tag i store row s h = rw (h, access_row)

access_row-fill :
    (e b tag i : ℕ) (store : Bool) (row : Row) (s : Stats)
    → find_index (matches row tag) 0 e ≡ none
    → find_index (invalid row) 0 e ≡ some i
    → access_row e b tag store row s ≡ record {
      row = fill_row e row i tag store;
      stats = record s { misses = s.misses + 1 };
      kind = miss;
    }
unfolding access_row on_miss
access_row-fill e b tag i store row s h h' = rw (h, access_row) (rw (h', on_miss))

pub access_row-evict :
    (e b tag j : ℕ) (store : Bool) (row : Row) (s : Stats)
    → find_index (matches row tag) 0 e ≡ none
    → find_index (invalid row) 0 e ≡ none
    → victim e row ≡ some j
    → access_row e b tag store row s ≡ record {
      row = evict_row e row j tag store;
      stats = record s {
        misses = s.misses + 1;
        evicts = s.evicts + 1;
        d_evict = s.d_evict + (if (row j).dirty then 2 ^ b else 0);
      };
      kind = miss_eviction;
    }
unfolding access_row on_miss evict
access_row-evict e b tag j store row s h h' h'' =
    rw (h, access_row) (rw (h', on_miss) (rw (h'', evict)))

-- What an access to a row does. `place` is the line that holds the block afterwards.
pub record Accessed (e b tag : ℕ) (store : Bool) (row : Row) (s : Stats) (r : Result) : Type 0 where
  pub valid : IsRow e r.row
  pub place : ℕ
  pub in_row : place < e
  pub present : matches r.row tag place ≡ true
  pub others :
      (k : ℕ)
      → k < e
      → k ≢ place
      → ((r.row k).valid ≡ (row k).valid)
        × ((r.row k).tag ≡ (row k).tag)
        × ((r.row k).dirty ≡ (row k).dirty)
  pub counted : r.stats.hits + r.stats.misses ≡ s.hits + s.misses + 1
  pub on_hit :
      (k : ℕ)
      → k < e
      → matches row tag k ≡ true
      → (r.stats.hits ≡ s.hits + 1) × (r.stats.misses ≡ s.misses)
  pub on_absent :
      ((k : ℕ) → k < e → matches row tag k ≡ false)
      → (r.stats.hits ≡ s.hits) × (r.stats.misses ≡ s.misses + 1)
  pub stored : store ≡ true → (r.row place).dirty ≡ true

and_true : (a b : Bool) → (a && b) ≡ true → (a ≡ true) × (b ≡ true)
and_true true b h = (refl, h)
and_true false b h = cc

not_both : (a : Bool) → a ≡ true → a ≡ false → ⊥
not_both true p q = cc
not_both false p q = cc

-- A line that does not match and is valid has another tag.
other_tag :
    (row : Row) (tag k : ℕ) → matches row tag k ≡ false → (row k).valid ≡ 1 → (row k).tag ≢ tag
other_tag row tag k h v e = clash (ground arith) h
  where
    clash : matches row tag k ≡ true → matches row tag k ≡ false → ⊥
    clash p q = cc

module _ (e b tag i : ℕ) (store : Bool) (row : Row) (s : Stats) (v : IsRow e row) (lt : i < e) where
  hit_Accessed :
      matches row tag i ≡ true
      → Accessed e b tag store row s (record {
        row = hit_row e row i store;
        stats = record s { hits = s.hits + 1 };
        kind = hit;
      })
  unfolding hit_row
  hit_Accessed m = record {
    valid = record {
      bits = λ k h. ground (arith, v.bits k h);
      unique = λ k l h h' p p' t. v.unique k l h h' (ground arith) (ground arith) (ground arith);
      aged = λ k h. ground (arith, v.aged k h, dec_aged e (row k).lru);
    };
    place = i;
    in_row = lt;
    present = ground arith;
    others = λ k h ne. (ground arith, ground arith, ground arith);
    counted = omega arith;
    on_hit = λ k h p. (refl, refl);
    on_absent = λ absent. absurd (not_both (matches row tag i) m (absent i lt));
    stored = λ st. ground arith;
  }

  fill_Accessed :
      (row i).valid ≡ 0
      → ((k : ℕ) → k < e → matches row tag k ≡ false)
      → Accessed e b tag store row s (record {
        row = fill_row e row i tag store;
        stats = record s { misses = s.misses + 1 };
        kind = miss;
      })
  unfolding fill_row
  fill_Accessed z absent = record {
    valid = record {
      bits = λ k h. ground (arith, v.bits k h);
      unique = λ k l h h' p p' t. ground (
        arith,
        v.unique k l h h',
        other_tag row tag k (absent k h),
        other_tag row tag l (absent l h'),
      );
      aged = λ k h. ground (arith, v.aged k h, dec_aged e (row k).lru);
    };
    place = i;
    in_row = lt;
    present = ground arith;
    others = λ k h ne. (ground arith, ground arith, ground arith);
    counted = omega arith;
    on_hit = λ k h p. absurd (not_both (matches row tag k) p (absent k h));
    on_absent = λ q. (refl, refl);
    stored = λ st. ground arith;
  }

  evict_Accessed :
      ((k : ℕ) → k < e → (row k).valid ≡ 1)
      → ((k : ℕ) → k < e → matches row tag k ≡ false)
      → Accessed e b tag store row s (record {
        row = evict_row e row i tag store;
        stats = record s {
          misses = s.misses + 1;
          evicts = s.evicts + 1;
          d_evict = s.d_evict + (if (row i).dirty then 2 ^ b else 0);
        };
        kind = miss_eviction;
      })
  unfolding evict_row
  evict_Accessed full absent = record {
    valid = record {
      bits = λ k h. ground (arith, v.bits k h);
      unique = λ k l h h' p p' t. ground (
        arith,
        v.unique k l h h',
        full k h,
        full l h',
        other_tag row tag k (absent k h),
        other_tag row tag l (absent l h'),
      );
      aged = λ k h. ground (arith, v.aged k h, dec_aged e (row k).lru, dec_aged e (pos e));
    };
    place = i;
    in_row = lt;
    present = ground (arith, full i lt);
    others = λ k h ne. (ground arith, ground arith, ground arith);
    counted = omega arith;
    on_hit = λ k h p. absurd (not_both (matches row tag k) p (absent k h));
    on_absent = λ q. (refl, refl);
    stored = λ st. ground arith;
  }

-- With every line's valid bit a bit, a line that is not empty is valid.
full_of_none :
    (e : ℕ) (row : Row)
    → IsRow e row
    → find_index (invalid row) 0 e ≡ none
    → (k : ℕ) → k < e
    → (row k).valid ≡ 1
full_of_none e row v h k lt =
    ground (arith, v.bits k lt, find_index-none (invalid row) 0 e h k (omega arith) (omega arith))

-- An access to a row of at least one line leaves a well-formed row in which one line, valid and with
-- the address's tag, holds the block (dirty if the access is a store); the other lines keep their
-- valid bit, tag and dirty bit. If a line held the block before, hits has gone up by one and misses is
-- as it was; if none did, misses has gone up by one and hits is as it was.
pub access_row_lem :
    (e b tag : ℕ) (store : Bool) (row : Row) (s : Stats)
    → 0 < e
    → IsRow e row
    → Accessed e b tag store row s (access_row e b tag store row s)
access_row_lem e b tag store row s some_line v = go (find_index (matches row tag) 0 e) refl
  where
    absent : find_index (matches row tag) 0 e ≡ none → (k : ℕ) → k < e → matches row tag k ≡ false
    absent h k lt = find_index-none (matches row tag) 0 e h k (omega arith) (omega arith)

    miss_case :
        find_index (matches row tag) 0 e ≡ none
        → (r : Option ℕ) → find_index (invalid row) 0 e ≡ r
        → Accessed e b tag store row s (access_row e b tag store row s)
    miss_case h none h' =
        let (j, is, lt) = victim-found e row some_line v in
        rw (access_row-evict e b tag j store row s h h' is)
          (evict_Accessed e b tag j store row s v lt (full_of_none e row v h') (absent h))
    miss_case h (some i) h' =
        let f = find_index-some (invalid row) 0 e i h' in
        rw (access_row-fill e b tag i store row s h h') (
          fill_Accessed e b tag i store row s v (omega (arith, f.2)) (eq_of_== (row i).valid 0 f.0)
            (absent h))

    go :
        (r : Option ℕ)
        → find_index (matches row tag) 0 e ≡ r
        → Accessed e b tag store row s (access_row e b tag store row s)
    go none h = miss_case h (find_index (invalid row) 0 e) refl
    go (some i) h =
        let f = find_index-some (matches row tag) 0 e i h in
        rw (access_row-hit e b tag i store row s h)
          (hit_Accessed e b tag i store row s v (omega (arith, f.2)) f.0)
