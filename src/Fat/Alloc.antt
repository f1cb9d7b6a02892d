-- ===== src/Fat/Alloc.antt =====
-- The allocation of clusters in `fat12_create_file`, include/fat12.h.
use advanced_os.Base.{
  ℕ, ◌<◌, ◌≡◌, ◌≢◌, sym, ◌⊎◌, inl, inr, arith, some, none, update, update_self, update_ne, ◌∙◌, ap,
}
use advanced_os.Fat.{Allocation, fat_num_entry}
use advanced_os.Fat.Linked.{IsLinked, one-IsLinked}

-- `table'` continues a chain that ended at `p` in `table`, with clusters from `i` on, and changes no
-- entry that was in use.
record Grown (fat table : ℕ → ℕ) (i need p : ℕ) (table' : ℕ → ℕ) : Type 0 where
  head : ℕ
  linked : IsLinked fat table' i need head
  joined : table' p ≡ head
  kept : (j : ℕ) → j ≢ p → (j < i) ⊎ (table j ≢ 0) → table' j ≡ table j

module _ (fat table : ℕ → ℕ) (i p : ℕ) (before : p < i) (inside : i < fat_num_entry) where
  other : (j : ℕ) → table i ≡ 0 → (j < i) ⊎ (table j ≢ 0) → i ≢ j
  other j unused (inl lt) e = omega arith
  other j unused (inr nz) e = nz (ap table (sym e) ∙ unused)

  -- The last cluster.
  finish : fat i ≡ 0 → table i ≡ 0 → Grown fat table i 1 p (update (update table p i) i 0xFFF)
  finish free unused = record {
    head = i;
    linked = one-IsLinked fat _ i inside free (update_self (update table p i) 0xFFF i);
    joined = ground arith;
    kept = λ j ne w.
        update_ne (update table p i) 0xFFF (other j unused w) ∙ update_ne table i (λ e. ne (sym e));
  }

-- The loop once a first cluster has been taken, `p` being the last one taken.
module _ (fat : ℕ → ℕ) (num start : ℕ) where
  abbrev started : (table : ℕ → ℕ) (cnt p : ℕ) → Allocation
  started table cnt p = record { table = table; cnt = cnt; prev = some p; start = start }

-- The clusters of a new file: `num` of those that were free, chained from `h` on, with every entry
-- in use as it was.
pub record Allocated (fat table : ℕ → ℕ) (i num h : ℕ) : Type 0 where
  pub linked : IsLinked fat table i num h
  pub kept : (j : ℕ) → fat j ≢ 0 → table j ≡ fat j

module _ (fat : ℕ → ℕ) (num : ℕ) where
  abbrev unstarted : Allocation
  unstarted = record { table = fat; cnt = 0; prev = none; start = 0 }
