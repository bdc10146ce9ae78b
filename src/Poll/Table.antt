-- ===== src/Poll/Table.antt =====
-- tscb/ioready-poll.cc: `polltab_` and `polltab_index_` against the descriptors that are watched.
use libtscb.Base.{ℕ, ◌+◌, ◌-◌, ◌<◌, ◌≤◌, ◌≡◌, update, arith}
use libtscb.Handlers.Chain.{Events}
use libtscb.Poll.{
  PollTable, resize_index, allocate_polltab_entry, update_polltab_entry, commit, free_polltab_entry,
  enter, translate_tscb_to_os,
}

-- How often each descriptor is watched, and for what.
pub record Watched : Type 0 where
  pub count : ℕ → ℕ
  pub mask : ℕ → Events

-- Each watched descriptor has one entry, with the events of its mask, and there is no other entry.
pub record Holds (t : PollTable) (w : Watched) : Type 0 where
  pub counts : (fd : ℕ) → fd < t.index_size → t.use_count fd ≡ w.count fd
  pub outside : (fd : ℕ) → t.index_size ≤ fd → w.count fd ≡ 0
  pub within : (fd : ℕ) → 0 < w.count fd → t.index fd < t.size
  pub placed : (fd : ℕ) → 0 < w.count fd → t.fds (t.index fd) ≡ fd
  pub asked : (fd : ℕ) → 0 < w.count fd → t.events (t.index fd) ≡ translate_tscb_to_os (w.mask fd)
  pub watched : (n : ℕ) → n < t.size → 0 < w.count (t.fds n)
  pub listed : (n : ℕ) → n < t.size → t.index (t.fds n) ≡ n

abbrev pub entered : Watched → ℕ → Events → Watched
entered w fd mask = record {
  count = update w.count fd (w.count fd + 1);
  mask = update w.mask fd mask;
}

abbrev pub modified : Watched → ℕ → Events → Watched
modified w fd mask = record w { mask = update w.mask fd mask }

abbrev pub left : Watched → ℕ → Events → Watched
left w fd mask = record { count = update w.count fd (w.count fd - 1); mask = update w.mask fd mask }

module _ (t : PollTable) (w : Watched) (h : Holds t w) where
  pub update-Holds :
      (fd : ℕ) (mask : Events)
      → 0 < w.count fd
      → Holds (update_polltab_entry t fd mask) (modified w fd mask)
  unfolding update_polltab_entry
  update-Holds fd mask l = record {
    counts = h.counts;
    outside = h.outside;
    within = h.within;
    placed = h.placed;
    asked = λ q k. ground (arith, h.asked q k, h.placed q k, h.placed fd l);
    watched = h.watched;
    listed = h.listed;
  }

  pub resize-Holds : (n : ℕ) → t.index_size ≤ n → Holds (resize_index t n) w
  unfolding resize_index
  resize-Holds n l = record {
    counts = λ q k. ground (arith, h.counts q, h.outside q);
    outside = λ q k. h.outside q (omega arith);
    within = h.within;
    placed = h.placed;
    asked = h.asked;
    watched = h.watched;
    listed = h.listed;
  }

  -- What the invariant says of one descriptor, and of one position.
  record Descriptor (fd : ℕ) : Type 0 where
    counts : fd < t.index_size → t.use_count fd ≡ w.count fd
    outside : t.index_size ≤ fd → w.count fd ≡ 0
    within : 0 < w.count fd → t.index fd < t.size
    placed : 0 < w.count fd → t.fds (t.index fd) ≡ fd
    asked : 0 < w.count fd → t.events (t.index fd) ≡ translate_tscb_to_os (w.mask fd)

  facts : (fd : ℕ) → Descriptor fd
  facts fd = record {
    counts = h.counts fd;
    outside = h.outside fd;
    within = h.within fd;
    placed = h.placed fd;
    asked = h.asked fd;
  }

  record Position (n : ℕ) : Type 0 where
    watched : n < t.size → 0 < w.count (t.fds n)
    listed : n < t.size → t.index (t.fds n) ≡ n

  entry : (n : ℕ) → Position n
  entry n = record { watched = h.watched n; listed = h.listed n }

  pub enter_new :
      (fd : ℕ) (mask : Events)
      → fd < t.index_size
      → w.count fd ≡ 0
      → Holds (enter t fd mask) (entered w fd mask)
  unfolding enter allocate_polltab_entry commit
  enter_new fd mask l z = record {
    counts = λ q k. ground (arith, facts q, facts fd);
    outside = λ q k. ground (arith, facts q, facts fd);
    within = λ q k. ground (arith, facts q, facts fd);
    placed = λ q k. ground (arith, facts q, facts fd);
    asked = λ q k. ground (arith, facts q, facts fd);
    watched = λ n k. ground (arith, entry n, facts fd);
    listed = λ n k. ground (arith, entry n, facts fd);
  }

  pub enter_again :
      (fd : ℕ) (mask : Events)
      → fd < t.index_size
      → 0 < w.count fd
      → w.count fd < 18446744073709551615
      → Holds (enter t fd mask) (entered w fd mask)
  unfolding enter allocate_polltab_entry commit
  enter_again fd mask l z b = record {
    counts = λ q k. ground (arith, facts q, facts fd);
    outside = λ q k. ground (arith, facts q, facts fd);
    within = λ q k. ground (arith, facts q, facts fd);
    placed = λ q k. ground (arith, facts q, facts fd);
    asked = λ q k. ground (arith, facts q, facts fd);
    watched = λ n k. ground (arith, entry n, facts fd);
    listed = λ n k. ground (arith, entry n, facts fd);
  }

  pub free_kept :
      (fd : ℕ)
      → 1 < w.count fd
      → Holds (free_polltab_entry t fd) (record w { count = update w.count fd (w.count fd - 1) })
  unfolding free_polltab_entry
  free_kept fd z = record {
    counts = λ q k. ground (arith, facts q, facts fd);
    outside = λ q k. ground (arith, facts q, facts fd);
    within = λ q k. ground (arith, facts q, facts fd);
    placed = λ q k. ground (arith, facts q, facts fd);
    asked = λ q k. ground (arith, facts q, facts fd);
    watched = λ n k. ground (arith, entry n, facts fd);
    listed = λ n k. ground (arith, entry n, facts fd);
  }

  pub free_last :
      (fd : ℕ)
      → w.count fd ≡ 1
      → Holds (free_polltab_entry t fd) (record w { count = update w.count fd 0 })
  unfolding free_polltab_entry
  free_last fd z = record {
    counts = λ q k. ground (arith, facts q, facts fd, entry (t.size - 1));
    outside = λ q k. ground (arith, facts q, facts fd, entry (t.size - 1));
    within = λ q k. ground (arith, facts q, facts fd, entry (t.size - 1));
    placed = λ q k. ground (arith, facts q, facts fd, entry (t.size - 1));
    asked = λ q k. ground (arith, facts q, facts fd, entry (t.size - 1));
    watched = λ n k. ground (arith, entry n, facts fd, entry (t.size - 1));
    listed = λ n k. ground (arith, entry n, facts fd, entry (t.size - 1));
  }
