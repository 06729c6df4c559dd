-- ===== src/Delta/Stored.antt =====
-- The delta file that is left when the channel is destroyed, after any series of cluster writes.
-- The code is src/lib/spdk_bs_dev_delta.c.
use bdev_ubi.Common.{
  ℕ, ◌+◌, ◌*◌, ◌^◌, ◌≤◌, ◌<◌, ◌≡◌, refl, ◌∙◌, false, Option, none, some, List, pos, arith,
}
use bdev_ubi.Common.Outcome.{Outcome, done, ◌>>=◌}
use bdev_ubi.Posix.{Memory, File, overwrite, write_file}
use bdev_ubi.Posix.Words.{bytes_of, word_at, word_at-bytes_of, word_at_ext}
use bdev_ubi.Delta.{max_clusters, map_bytes, BsDevDelta, IoChannel, delta_write}
use bdev_ubi.Delta.Channel.{
  ChannelAnswers, DestroyAnswers, create_channel_cb, destroy_channel_cb, fresh_channel,
}
use bdev_ubi.Delta.Layout.{
  ClusterWrite, Overlay, Entry, Inv, IsGeometry, InMap, length, replay, cluster_bytes, write_all,
  write_all-Wrote,
}

-- A file in which a reader finds an overlay of clusters of `size` bytes, all before `limit`.
abbrev pub IsOverlay : ℕ → ℕ → File → Overlay → Type 0
IsOverlay size limit file o =
    (c : ℕ) → c < max_clusters → Entry file.bytes size limit (o c) (word_at file.bytes c)

-- The kernel opens the file, takes the whole map, and io_uring starts.
pub record IsOpening (a : ChannelAnswers) (fd : ℕ) : Type 0 where
  pub opens : a.open_rc ≡ pos fd
  pub reserves : a.write_rc ≡ pos map_bytes
  pub rings : a.ring_rc ≡ pos 0

-- The code's run on one file: the channel is created, the clusters are written, and the channel is
-- destroyed. A channel that is not created gives no file.
unfoldable pub record_on :
    BsDevDelta → Option IoChannel → List ClusterWrite → DestroyAnswers → Outcome (Option File)
record_on dev none ws d = done none
record_on dev (some ch) ws d =
    write_all dev ch ws >>= λ ch'. done (some (destroy_channel_cb dev ch' d).1)

unfoldable pub record_snapshot :
    BsDevDelta → ChannelAnswers → List ClusterWrite → DestroyAnswers → Outcome (Option File)
record_snapshot dev a ws d = record_on dev (create_channel_cb dev a).1 ws d

opened_channel : ℕ → File → IoChannel
unfolding write_file
opened_channel fd file =
    let ch = fresh_channel fd file in
    record ch { delta_file = write_file ch.delta_file (bytes_of ch.cluster_map) (pos map_bytes) }

create_channel-opened :
    (dev : BsDevDelta) (a : ChannelAnswers) (fd : ℕ)
    → dev.direction ≡ delta_write
    → IsOpening a fd
    → (create_channel_cb dev a).1 ≡ some (opened_channel fd a.file)
unfolding create_channel_cb opened_channel
create_channel-opened dev a fd w h = rw (h.opens, w, h.reserves, h.rings)

opened-Inv :
    (dev : BsDevDelta) (fd : ℕ) (file : File) → Inv dev (opened_channel fd file) (λ c. none)
unfolding opened_channel
opened-Inv dev fd file = record { past = omega arith; sized = omega arith; entry = λ c h. refl }

-- A map entry is below the limit.
small :
    (bytes : Memory) (size limit m : ℕ) (s : Option Memory)
    → limit < 2 ^ 64
    → Entry bytes size limit s m
    → m < 2 ^ 64
small bytes size limit m none l e = omega arith
small bytes size limit m (some p) l e = omega arith

-- The map that is written at the start of a file is the map that is read there.
stored_word :
    (map : ℕ → ℕ) (old : Memory) (c : ℕ)
    → c < max_clusters
    → map c < 2 ^ 64
    → word_at (overwrite old 0 (bytes_of map) map_bytes) c ≡ map c
unfolding overwrite
stored_word map old c h lt =
    word_at_ext (overwrite old 0 (bytes_of map) map_bytes) (bytes_of map) c (λ a q. ground arith)
    ∙ word_at-bytes_of map c lt

above_map :
    (map : ℕ → ℕ) (old : Memory) (a : ℕ)
    → map_bytes ≤ a
    → overwrite old 0 (bytes_of map) map_bytes a ≡ old a
unfolding overwrite
above_map map old a h = ground arith

moved-Entry :
    (map : ℕ → ℕ) (old : Memory) (size limit m : ℕ) (s : Option Memory)
    → Entry old size limit s m
    → Entry (overwrite old 0 (bytes_of map) map_bytes) size limit s m
moved-Entry map old size limit m none e = e
moved-Entry map old size limit m (some p) e =
    (e.0, e.1, λ j h. above_map map old (m + j) (omega (arith, e.0)) ∙ e.2 j h)

-- What the kernel does at the end: it seeks, and takes the whole map.
pub record IsClosing (d : DestroyAnswers) : Type 0 where
  pub seeks : d.seek_fails ≡ false
  pub stores : d.write_rc ≡ pos map_bytes

-- The destruction of the channel turns its map into the file's overlay.
destroy-IsOverlay :
    (dev : BsDevDelta) (ch : IoChannel) (o : Overlay) (d : DestroyAnswers)
    → dev.direction ≡ delta_write
    → Inv dev ch o
    → ch.delta_file.offset < 2 ^ 64
    → IsClosing d
    → IsOverlay (cluster_bytes dev) ch.delta_file.offset (destroy_channel_cb dev ch d).1 o
unfolding destroy_channel_cb write_file
destroy-IsOverlay dev ch o d w inv lt cl c h =
    let e = inv.entry c h in
    let bytes = ch.delta_file.file.bytes in
    let size = cluster_bytes dev in
    let limit = ch.delta_file.offset in
    rw
      (
        w,
        cl.seeks,
        cl.stores,
        stored_word ch.cluster_map bytes c h (small bytes size limit (ch.cluster_map c) (o c) lt e),
      )
      (moved-Entry ch.cluster_map bytes size limit (ch.cluster_map c) (o c) e)

size-destroy :
    (dev : BsDevDelta) (ch : IoChannel) (d : DestroyAnswers)
    → dev.direction ≡ delta_write
    → IsClosing d
    → ch.delta_file.file.size ≤ (destroy_channel_cb dev ch d).1.size
unfolding destroy_channel_cb write_file
size-destroy dev ch d w cl = rw (w, cl.seeks, cl.stores) (omega arith)

-- The end of the data after a series of writes.
abbrev pub data_end : BsDevDelta → List ClusterWrite → ℕ
data_end dev ws = map_bytes + length ws * cluster_bytes dev

-- The file that a series of writes leaves: the overlay of the payloads, later writes of a cluster
-- replacing earlier ones, all inside the file.
pub record Recorded (dev : BsDevDelta) (a : ChannelAnswers) (ws : List ClusterWrite)
    (d : DestroyAnswers) : Type 0 where
  pub file : File
  pub ran : record_snapshot dev a ws d ≡ done (some file)
  pub overlay : IsOverlay (cluster_bytes dev) (data_end dev ws) file (replay (λ c. none) ws)
  pub inside : data_end dev ws ≤ file.size

-- If the device writes, its clusters are not empty and take less than 2 GiB, all writes are of
-- clusters below MAX_CLUSTERS, no call fails or is cut short and the data ends below 2 ^ 64, then
-- creating a channel, writing the clusters and destroying the channel runs to its end, and leaves a
-- file of at least the map and one cluster for each write, in whose map every cluster that was
-- written has the position, past the map and inside the file, of the bytes of its last write, and
-- every other cluster has 0.
pub record_snapshot-Recorded :
    (dev : BsDevDelta) (a : ChannelAnswers) (ws : List ClusterWrite) (d : DestroyAnswers) (fd : ℕ)
    → dev.direction ≡ delta_write
    → IsGeometry dev
    → IsOpening a fd
    → IsClosing d
    → InMap ws
    → data_end dev ws < 2 ^ 64
    → Recorded dev a ws d
unfolding record_snapshot record_on
record_snapshot-Recorded dev a ws d fd w g op cl inm lt =
    let start = opened_channel fd a.file in
    let run = write_all-Wrote dev start (λ c. none) ws g inm (opened-Inv dev fd a.file) in
    let moved : run.result.delta_file.offset ≡ data_end dev ws =
      unfold opened_channel in omega (arith, run.moved) in
    record {
      file = (destroy_channel_cb dev run.result d).1;
      ran = rw (create_channel-opened dev a fd w op, run.ran);
      overlay = rw (← moved) (
          destroy-IsOverlay dev run.result (replay (λ c. none) ws) d w run.valid
            (omega (arith, moved)) cl);
      inside = omega (arith, moved, run.valid.sized, size-destroy dev run.result d w cl);
    }
