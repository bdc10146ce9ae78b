-- ===== src/Pointer/Counted.antt =====
-- tscb/detail/intrusive-ptr.h: reference counts over sequences of pointer operations.
use libtscb.Base.{
  ℕ, ◌+◌, ◌-◌, ◌<◌, ◌≡◌, ◌≢◌, ◌⊎◌, inl, inr, ◌==◌, true, false, if◌then◌else◌, update, arith,
  Bool-cases,
}
use native.Mathlib.Decide.{ℕ_discrete}
use libtscb.Sums.{sum_of, sum_of-update, le-sum_of}
use libtscb.Pointer.{Refs, add_ref, release, construct, swap, reset, detach}

abbrev pub points_to : ℕ → ℕ → ℕ
points_to p q = if q == p then 1 else 0

-- The pointers among the first `n` that refer to `p`.
abbrev pub pointers : ℕ → Refs → ℕ → ℕ
pointers n h p = sum_of (points_to p) n h.repr

-- Each object's count is the number of its pointers, plus the references that are held otherwise,
-- and an object that was deleted has no reference left.
pub record IsCounted (n : ℕ) (h : Refs) (held : ℕ → ℕ) : Type 0 where
  pub counted : (p : ℕ) → p ≢ 0 → h.count p ≡ pointers n h p + held p
  pub lives : (p : ℕ) → p ≢ 0 → h.deleted p ≡ true → h.count p ≡ 0
  pub small : (p : ℕ) → p ≢ 0 → h.count p < 18446744073709551616

-- What a step keeps: the counts are right, an object whose last reference goes is deleted, and a
-- deleted object stays so.
pub record Keeps (n : ℕ) (h : Refs) (g : Refs) (held : ℕ → ℕ) : Type 0 where
  pub valid : IsCounted n g held
  pub collected : (p : ℕ) → p ≢ 0 → 0 < h.count p → g.count p ≡ 0 → g.deleted p ≡ true
  pub stays : (p : ℕ) → h.deleted p ≡ true → g.deleted p ≡ true

pub Keeps-trans :
    (n : ℕ) (h f g : Refs) (held held' : ℕ → ℕ)
    → Keeps n h f held
    → Keeps n f g held'
    → Keeps n h g held'
Keeps-trans n h f g held held' a b = record {
  valid = b.valid;
  collected = λ p z l e. elim (ℕ_discrete (f.count p) 0) [
    | yes none ↦ b.stays p (a.collected p z l none)
    | no some ↦ b.collected p z (omega arith) e
  ];
  stays = λ p d. b.stays p (a.stays p d);
}

-- A pointer that may be given to a new reference: null, or an object that is not deleted and whose
-- count has room.
abbrev pub Sharable : Refs → ℕ → Type 0
Sharable h p = (p ≡ 0) ⊎ ((h.deleted p ≡ false) × (h.count p < 18446744073709551615))

module _ (n : ℕ) (h : Refs) (held : ℕ → ℕ) (c : IsCounted n h held) where
  pub alive :
      (i : ℕ) → i < n → h.repr i ≢ 0 → (h.deleted (h.repr i) ≡ false) × (0 < h.count (h.repr i))
  alive i l z = elim (Bool-cases (h.deleted (h.repr i))) [
    | inl gone ↦ ground (
      arith,
      c.lives (h.repr i) z gone,
      c.counted (h.repr i) z,
      le-sum_of (points_to (h.repr i)) n h.repr i l,
    )
    | inr here ↦ (
      here,
      ground (arith, c.counted (h.repr i) z, le-sum_of (points_to (h.repr i)) n h.repr i l),
    )
  ]

  pub construct-Keeps :
      (i p : ℕ) → i < n → h.repr i ≡ 0 → Sharable h p → Keeps n h (construct h i p true) held
  unfolding construct add_ref
  construct-Keeps i p l e s = record {
    valid = record {
      counted = λ q z.
          ground (arith, c.counted q z, c.small q z, sum_of-update (points_to q) n h.repr i p l);
      lives = λ q z. ground (arith, c.lives q z);
      small = λ q z. ground (arith, c.small q z);
    };
    collected = λ q z. ground (arith, c.small q z);
    stays = λ q. ground (arith);
  }

  pub adopt-Keeps :
      (i p : ℕ)
      → i < n
      → h.repr i ≡ 0
      → 0 < held p
      → Keeps n h (construct h i p false) (update held p (held p - 1))
  unfolding construct
  adopt-Keeps i p l e s = record {
    valid = record {
      counted = λ q z. ground (arith, c.counted q z, sum_of-update (points_to q) n h.repr i p l);
      lives = λ q z. ground (arith, c.lives q z);
      small = λ q z. ground (arith, c.small q z);
    };
    collected = λ q z. ground (arith);
    stays = λ q. ground (arith);
  }

  pub detach-Keeps :
      (i : ℕ) → i < n → Keeps n h ((detach h i).0) (update held (h.repr i) (held (h.repr i) + 1))
  unfolding detach
  detach-Keeps i l = record {
    valid = record {
      counted = λ q z. ground (arith, c.counted q z, sum_of-update (points_to q) n h.repr i 0 l);
      lives = λ q z. ground (arith, c.lives q z);
      small = λ q z. ground (arith, c.small q z);
    };
    collected = λ q z. ground (arith);
    stays = λ q. ground (arith);
  }

  pub swap-Keeps : (i j : ℕ) → i < n → j < n → i ≢ j → Keeps n h (swap h i j) held
  unfolding swap
  swap-Keeps i j l k d = record {
    valid = record {
      counted = λ q z. ground (
        arith,
        c.counted q z,
        sum_of-update (points_to q) n h.repr j (h.repr i) k,
        sum_of-update (points_to q) n (update h.repr j (h.repr i)) i (h.repr j) l,
      );
      lives = λ q z. ground (arith, c.lives q z);
      small = λ q z. ground (arith, c.small q z);
    };
    collected = λ q z. ground (arith);
    stays = λ q. ground (arith);
  }

  pub reset-Keeps :
      (i p : ℕ)
      → i < n
      → (p ≡ 0) ⊎ (p ≢ h.repr i)
      → Sharable h p
      → Keeps n h (reset h i p true) held
  unfolding reset add_ref release
  reset-Keeps i p l w s = record {
    valid = record {
      counted = λ q z. ground (
        arith,
        c.counted q z,
        c.small q z,
        sum_of-update (points_to q) n h.repr i p l,
        le-sum_of (points_to q) n h.repr i l,
      );
      lives =
          λ q z. ground (arith, c.lives q z, c.counted q z, le-sum_of (points_to q) n h.repr i l);
      small = λ q z. ground (arith, c.small q z);
    };
    collected = λ q z. ground (arith, c.small q z);
    stays = λ q. ground (arith);
  }

  -- A pointer takes over a reference that was held without one, in place of its own.
  pub reset_adopt-Keeps :
      (i p : ℕ) → i < n → 0 < held p → Keeps n h (reset h i p false) (update held p (held p - 1))
  unfolding reset release
  reset_adopt-Keeps i p l w = record {
    valid = record {
      counted = λ q z. ground (
        arith,
        c.counted q z,
        c.small q z,
        sum_of-update (points_to q) n h.repr i p l,
        le-sum_of (points_to q) n h.repr i l,
      );
      lives =
          λ q z. ground (arith, c.lives q z, c.counted q z, le-sum_of (points_to q) n h.repr i l);
      small = λ q z. ground (arith, c.small q z);
    };
    collected = λ q z. ground (arith, c.counted q z, le-sum_of (points_to q) n h.repr i l);
    stays = λ q. ground (arith);
  }

  -- A pointer is reset to its own object, which has another reference.
  pub reset_own-Keeps :
      (i : ℕ) → i < n → 1 < h.count (h.repr i) → Keeps n h (reset h i (h.repr i) true) held
  unfolding reset add_ref release
  reset_own-Keeps i l w = record {
    valid = record {
      counted = λ q z. ground (
        arith,
        c.counted q z,
        c.small q z,
        sum_of-update (points_to q) n h.repr i (h.repr i) l,
        le-sum_of (points_to q) n h.repr i l,
      );
      lives =
          λ q z. ground (arith, c.lives q z, c.counted q z, le-sum_of (points_to q) n h.repr i l);
      small = λ q z. ground (arith, c.small q z);
    };
    collected = λ q z. ground (arith, c.small q z);
    stays = λ q. ground (arith);
  }
