-- ===== src/Bdev/Request/Esnap.antt =====
-- The image device that the blobstore is given by src/lib/bdev_ubi.c.
use bdev_ubi.Common.{
  ◌/◌, ◌<◌, ◌≢◌, ℕ, ◌%◌, ◌^◌, ◌≡◌, Bool, List, Option, some, ℤ, pos, arith, if◌then◌else◌, true,
  false,
}
use bdev_ubi.Common.Outcome.{Outcome, done, fault, ◌>>=◌}
use bdev_ubi.Posix.{FilePath, o_rdonly}
use bdev_ubi.Uring.{BsDevUring}
use bdev_ubi.Uring.Create
use bdev_ubi.Uring.Create.{CreateAnswers}
use bdev_ubi.Uring.Channel.{open_flags}
use bdev_ubi.Bdev.{UbiBdev}
use bdev_ubi.Bdev.Create.{Opts, State, Answers}
use bdev_ubi.Bdev.Create.Flow.{Event, run_create}
use bdev_ubi.Bdev.Create.Plain.{IsPlain, Plain, run_create-AllPlain}
use bdev_ubi.Bdev.Request.{esnap_dev_create}

-- The device has the flag that it is created with.
create-directio :
    (u64log2 : ℕ → ℕ) (a : CreateAnswers) (image : FilePath) (snapshot : Option FilePath)
    (blocklen cluster_size : ℕ) (directio : Bool) (dev : BsDevUring)
    → Create.create u64log2 a image snapshot blocklen cluster_size directio ≡ done (some dev)
    → dev.directio ≡ directio
unfolding Create.create
create-directio u64log2 a image snapshot blocklen cluster_size directio dev h = ground arith

abbrev with_zero : Option BsDevUring → ℤ × Option BsDevUring
with_zero d = (pos 0, d)

set_lem :
    (b : Bool) (o : Outcome (ℤ × Option BsDevUring)) (d : ℤ × Option BsDevUring)
    → (if b then o else fault) ≡ done d
    → o ≡ done d
set_lem true o d h = h
set_lem false o d h = cc

invert :
    (o : Outcome (Option BsDevUring)) (dev : BsDevUring)
    → (o >>= λ d. done (with_zero d)) ≡ done (with_zero (some dev))
    → o ≡ done (some dev)
invert fault dev h = cc
invert (done d) dev h = ground arith

-- Whatever the options of a creation were, and whatever SPDK answered, an image device that the
-- bdev is asked for has its files opened with O_RDONLY alone, never with O_DIRECT.
pub esnap-o_rdonly :
    (answers : Answers) (get_id : Option ℕ → Outcome ℕ) (opts : Option Opts) (es : List Event)
    (s : State) (b : UbiBdev) (u64log2 : ℕ → ℕ) (a : CreateAnswers) (cluster_size : ℕ)
    (dev : BsDevUring)
    → run_create answers get_id opts es ≡ done s
    → s.ubi_bdev ≡ some b
    → esnap_dev_create u64log2 a b cluster_size ≡ done (pos 0, some dev)
    → open_flags dev ≡ o_rdonly
unfolding esnap_dev_create
esnap-o_rdonly answers get_id opts es s b u64log2 a cluster_size dev r e h =
    let plain : Plain s.ubi_bdev = rw r at (run_create-AllPlain answers get_id opts es) in
    let b_plain : IsPlain b = rw e at plain in
    let made =
      invert
        (Create.create u64log2 a b.image_path (some b.snapshot_path) b.blocklen
          (cluster_size % 2 ^ 32) b.directio)
        dev (set_lem b.blobstore _ (with_zero (some dev)) h) in
    rw (
      create-directio u64log2 a b.image_path (some b.snapshot_path) b.blocklen
          (cluster_size % 2 ^ 32) b.directio dev made,
      b_plain.0,
    )

abbrev pub IsDone : Outcome (ℤ × Option BsDevUring) → Type 0
IsDone fault = ⊥
IsDone (done d) = Unit {0}

plain-IsDone :
    (b : UbiBdev) (u64log2 : ℕ → ℕ) (a : CreateAnswers) (cluster_size : ℕ)
    → IsPlain b
    → b.blobstore ≡ true
    → b.blocklen ≢ 0
    → u64log2 (cluster_size % 2 ^ 32 / b.blocklen) < 31
    → IsDone (esnap_dev_create u64log2 a b cluster_size)
unfolding esnap_dev_create Create.create
plain-IsDone b u64log2 a cluster_size p g z l = ground arith

-- Whatever the options of a creation were, and whatever SPDK answered, the making of an image device
-- for a bdev that has its blobstore is never undefined if its block length is not 0 and the logarithm of
-- the blocks of a cluster is below 31: the copies of its two paths, which have no bound of their own, fit.
pub esnap-IsDone :
    (answers : Answers) (get_id : Option ℕ → Outcome ℕ) (opts : Option Opts) (es : List Event)
    (s : State) (b : UbiBdev) (u64log2 : ℕ → ℕ) (a : CreateAnswers) (cluster_size : ℕ)
    → run_create answers get_id opts es ≡ done s
    → s.ubi_bdev ≡ some b
    → b.blobstore ≡ true
    → b.blocklen ≢ 0
    → u64log2 (cluster_size % 2 ^ 32 / b.blocklen) < 31
    → IsDone (esnap_dev_create u64log2 a b cluster_size)
esnap-IsDone answers get_id opts es s b u64log2 a cluster_size r e g z l =
    let plain : Plain s.ubi_bdev = rw r at (run_create-AllPlain answers get_id opts es) in
    let b_plain : IsPlain b = rw e at plain in plain-IsDone b u64log2 a cluster_size b_plain g z l
