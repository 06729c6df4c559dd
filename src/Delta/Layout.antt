-- ===== src/Delta/Layout.antt =====
-- What a delta file holds after a series of cluster writes, as a shallow copy makes them: an
-- overlay that maps a cluster to the bytes of its last write. The code is
-- src/lib/spdk_bs_dev_delta.c.
use native.Mathlib.Nat.{mul-mod_left, mul-div_left, mod-eq_of_lt}
use bdev_ubi.Common.{
  ℕ, suc, ◌+◌, ◌-◌, ◌*◌, ◌^◌, ◌≤◌, ◌<◌, ◌≡◌, refl, ap, false, Option, none, some, List, [], ◌∷◌,
  ◌==◌, Bool-cases, inl, inr, if◌then◌else◌, pos, arith, leb,
}
use bdev_ubi.Common.Outcome.{Outcome, done, ◌>>=◌}
use bdev_ubi.Posix.{Memory, overwrite, write_file}
use bdev_ubi.Delta.{
  max_clusters, map_bytes, BsDevDelta, IoChannel, write_size, WriteAnswers, write, scan_overflows,
  scans_past,
}

abbrev pub cluster_bytes : BsDevDelta → ℕ
cluster_bytes dev = dev.blocklen * dev.cluster_size

-- A write of one whole cluster.
pub record ClusterWrite : Type 0 where
  pub cluster : ℕ
  pub payload : Memory

-- The specification: the bytes that each cluster was last given.
abbrev pub Overlay : Type 0
Overlay = ℕ → Option Memory

abbrev pub put : Overlay → ClusterWrite → Overlay
put o w c = if c == w.cluster then some w.payload else o c

abbrev pub replay : Overlay → List ClusterWrite → Overlay
replay o [] = o
replay o (w ∷ ws) = replay (put o w) ws

abbrev pub length : List ClusterWrite → ℕ
length [] = 0
length (w ∷ ws) = suc (length ws)

-- The kernel takes the whole buffer.
abbrev pub full : BsDevDelta → WriteAnswers
full dev = record { seek_fails = false; written = pos (write_size dev dev.cluster_size) }

-- The code's writes of the clusters, each at the cluster's first block and of its length.
unfoldable pub write_all : BsDevDelta → IoChannel → List ClusterWrite → Outcome IoChannel
write_all dev ch [] = done ch
write_all dev ch (w ∷ ws) = do
  (ch', rc) ← write dev ch w.payload (w.cluster * dev.cluster_size) dev.cluster_size (full dev)
  write_all dev ch' ws

-- All clusters of the writes have an entry in the map.
abbrev pub InMap : List ClusterWrite → Type 0
InMap [] = Unit {0}
InMap (w ∷ ws) = (w.cluster < max_clusters) × InMap ws

-- Where a cluster's bytes lie: `m` is its map entry, and `limit` the end of the data.
abbrev pub Entry : Memory → ℕ → ℕ → Option Memory → ℕ → Type 0
Entry bytes size limit none m = m ≡ 0
Entry bytes size limit (some p) m =
    (map_bytes ≤ m) × (m + size ≤ limit) × ((j : ℕ) → j < size → bytes (m + j) ≡ p j)

pub record Inv (dev : BsDevDelta) (ch : IoChannel) (o : Overlay) : Type 0 where
  pub past : map_bytes ≤ ch.delta_file.offset
  pub sized : ch.delta_file.offset ≤ ch.delta_file.file.size
  pub entry :
      (c : ℕ)
      → c < max_clusters
      → Entry ch.delta_file.file.bytes
          (cluster_bytes dev)
          ch.delta_file.offset
          (o c)
          (ch.cluster_map c)

-- The geometry that a shallow copy works with: a write of a cluster has a length that fits an int,
-- which the code keeps the result of write(2) in.
pub record IsGeometry (dev : BsDevDelta) : Type 0 where
  pub nonempty : 0 < dev.cluster_size
  pub fits : cluster_bytes dev < 2 ^ 31

-- The channel after a write of one cluster.
abbrev after : BsDevDelta → IoChannel → ClusterWrite → IoChannel
after dev ch w = record ch {
  cluster_map = λ i. if i == w.cluster then ch.delta_file.offset else ch.cluster_map i;
  delta_file = write_file ch.delta_file w.payload (pos (cluster_bytes dev));
}

scans_past-end :
    (limit : ℕ) (payload : Memory) (size : ℕ) → size < limit → scans_past limit payload size ≡ false
unfolding scans_past
scans_past-end limit payload size h = rw (lt→leb_false size limit h) refl
  where
    lt→leb_false : (n m : ℕ) → n < m → leb m n ≡ false
    lt→leb_false n m h = ground arith

-- The scan of a payload of less than 2 GiB ends.
pub scan_ends : (payload : Memory) (size : ℕ) → size < 2 ^ 31 → scan_overflows payload size ≡ false
unfolding scan_overflows
scan_ends payload size h = scans_past-end 2147483648 payload size h

-- An aligned write within the map succeeds, whatever the channel.
pub write-after :
    (dev : BsDevDelta) (ch : IoChannel) (w : ClusterWrite)
    → IsGeometry dev
    → w.cluster < max_clusters
    → write dev ch w.payload (w.cluster * dev.cluster_size) dev.cluster_size (full dev)
      ≡ done (after dev ch w, pos 0)
unfolding write
write-after dev ch w g h = ground (
  arith,
  mul-mod_left w.cluster dev.cluster_size,
  mul-div_left w.cluster {n = dev.cluster_size} g.nonempty,
  mod-eq_of_lt g.fits,
  scan_ends w.payload (cluster_bytes dev) g.fits,
)

Entry-grow :
    (old : Memory) (size limit k : ℕ) (buf : Memory) (s : Option Memory) (m : ℕ)
    → Entry old size limit s m
    → Entry (overwrite old limit buf k) size (limit + k) s m
unfolding overwrite
Entry-grow old size limit k buf none m e = e
Entry-grow old size limit k buf (some p) m e = (e.0, omega arith, λ j h. ground (arith, e.2 j h))

overwrite_inside : (old buf : Memory) (p k j : ℕ) → j < k → overwrite old p buf k (p + j) ≡ buf j
unfolding overwrite
overwrite_inside old buf p k j h = ground (arith, ap buf (back p j))
  where
    back : (p j : ℕ) → p + j - p ≡ j
    back p j = omega arith

-- Such a write keeps the invariant, for the overlay with the cluster's new bytes.
pub after-Inv :
    (dev : BsDevDelta) (ch : IoChannel) (o : Overlay) (w : ClusterWrite)
    → Inv dev ch o
    → Inv dev (after dev ch w) (put o w)
unfolding write_file
after-Inv dev ch o w inv = record {
  past = omega (arith, inv.past);
  sized = omega arith;
  entry = λ c h. elim (Bool-cases (c == w.cluster)) [
    | inl e ↦ rw e (
      inv.past,
      omega arith,
      overwrite_inside ch.delta_file.file.bytes w.payload ch.delta_file.offset (cluster_bytes dev),
    )
    | inr e ↦ rw e (
        Entry-grow ch.delta_file.file.bytes (cluster_bytes dev) ch.delta_file.offset
          (cluster_bytes dev) w.payload (o c) (ch.cluster_map c) (inv.entry c h))
  ];
}

-- The result of a series of writes: it succeeds, keeps the invariant, and takes the file position
-- on by the bytes written.
pub record Wrote (dev : BsDevDelta) (ch : IoChannel) (o : Overlay) (ws : List ClusterWrite)
    : Type 0 where
  pub result : IoChannel
  pub ran : write_all dev ch ws ≡ done result
  pub valid : Inv dev result (replay o ws)
  pub moved : result.delta_file.offset ≡ ch.delta_file.offset + length ws * cluster_bytes dev
  pub same_fd : result.fd ≡ ch.fd

pub write_all-Wrote :
    (dev : BsDevDelta) (ch : IoChannel) (o : Overlay) (ws : List ClusterWrite)
    → IsGeometry dev
    → InMap ws
    → Inv dev ch o
    → Wrote dev ch o ws
unfolding write_all write_file
write_all-Wrote dev ch o [] g h inv = record {
  result = ch;
  ran = refl;
  valid = inv;
  moved = omega arith;
  same_fd = refl;
}
write_all-Wrote dev ch o (w ∷ ws) g h inv =
    let rest = write_all-Wrote dev (after dev ch w) (put o w) ws g h.1 (after-Inv dev ch o w inv) in
    record {
      result = rest.result;
      ran = rw (write-after dev ch w g h.0) rest.ran;
      valid = rest.valid;
      moved = omega (arith, rest.moved);
      same_fd = rest.same_fd;
    }
