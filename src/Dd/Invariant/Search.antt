-- ===== src/Dd/Invariant/Search.antt =====
-- The search for data in a sparse input file of src/app/spdk_dd.c, and what it relies on of lseek.
use mathlib.Core.Bool.{true≢false}
use bdev_ubi.Dd.Drains.{either}
use Prim.Native.Nat.{min}
use bdev_ubi.Common.{
  ℕ, ◌+◌, ◌-◌, ◌%◌, ◌≤◌, ◌<◌, ◌≡◌, refl, sym, ap, ◌∙◌, ◌⊎◌, inl, inr, Bool, true, false, ◌&&◌, ◌||◌,
  ◌==◌, ==_iff, ltb, lt→ltb, Bool-cases, if◌then◌else◌, arith, pos, negsuc, ℤ, subst,
}
use bdev_ubi.Dd.{Opts, Job, Answers, TargetType, read_region_start, is_stopped, sub64}
use bdev_ubi.Dd.Copy.{finish, target_populate_buffer}
use bdev_ubi.Dd.Seek.{
  enxio, target_seek, seek_target, seek_file, seek_file_hole, no_data, finalize_output,
  extend_output, set_length, move_to,
}
use bdev_ubi.Dd.Invariant.{Plan, IsPlan, Core}
use bdev_ubi.Dd.Invariant.Finish.{finish_busy}

no_call : {A : Type 0} (b : Bool) (x y : A) → (if b && false then x else y) ≡ y
no_call true x y = refl
no_call false x y = refl

stays : (x d : ℕ) → x ≤ d → ltb x d ≡ false → x ≡ d
stays x d l e = ground (arith, e)

choose : (s t : Job) → t ≡ s → (if s.outstanding == 0 then finish t else s) ≡ finish s
choose s t e = elim (Bool-cases (s.outstanding == 0)) [
  | inl z ↦ rw z (ap finish e)
  | inr z ↦ rw z (sym (finish_busy s z))
]

left_of : (b c : Bool) → (b || c) ≡ true → c ≡ false → b ≡ true
left_of true c e f = refl
left_of false c e f = absurd (true≢false (sym e ∙ f))

module _ (ceil_div : ℕ → ℕ → ℕ) (o : Opts) (p : Plan) where
  -- From position `x` the next data of the input are those from `d` to `h`: the bytes before them are
  -- of a hole, and data begin and end at the output's blocks, or end with the input.
  abbrev pub IsData : ℕ → ℕ → ℕ → Type 0
  IsData d h x =
      (x ≤ d)
      × (d < read_region_start o + p.size)
      × ((d - read_region_start o) % p.block ≡ 0)
      × ((y : ℕ) → x ≤ y → y < d → p.input y ≡ 0)
      × (d < h)
      × (h ≤ read_region_start o + p.size)
      × (((h - read_region_start o) % p.block ≡ 0) ⊎ (h ≡ read_region_start o + p.size))

  -- lseek with SEEK_DATA from `x` found data, and with SEEK_HOLE from there it found their end, if only
  -- that of the input; or there are no more data, and the errno says so.
  abbrev pub Found : ℤ → ℕ → ℤ → ℕ → Type 0
  Found (pos d) errno hole x = (h : ℕ) × (hole ≡ pos h) × IsData d h x
  Found (negsuc e) errno hole x =
      (errno ≡ enxio) × ((y : ℕ) → x ≤ y → y < read_region_start o + p.size → p.input y ≡ 0)

  -- The end of the output file is found, and it can be extended.
  abbrev pub Extends : Answers → Type 0
  Extends a = ((n : ℕ) × (a.end_offset ≡ pos n)) × (a.truncate_rc ≡ pos 0)

  -- What a sparse copy relies on when it searches from position `x`.
  abbrev pub IsSearch : Answers → ℕ → Type 0
  IsSearch a x = o.sparse ≡ true → Found a.data_offset a.data_errno a.hole_offset x × Extends a

  -- The job with its input at found data, and unit `i` as long as the data allow.
  abbrev pub searched : Job → ℕ → ℕ → ℕ → Job
  searched s i d h = set_length i (min o.io_unit_size (h - d)) (move_to d s)

  module _ (a : Answers) (x : Extends a) where
    extend_lem : (s : Job) → extend_output ceil_div o a a.end_offset s ≡ s
    unfolding extend_output
    extend_lem s = rw (x.0.1, x.1) (no_call _ _ s)

    extended_lem :
        (b : Bool) (s : Job) → (if b then extend_output ceil_div o a a.end_offset s else s) ≡ s
    extended_lem true s = extend_lem s
    extended_lem false s = refl

    -- With no data left, the job ends like one that has copied all.
    finalize_lem : (s : Job) → finalize_output ceil_div o a s ≡ finish s
    unfolding finalize_output
    finalize_lem s = choose s _ (extended_lem o.has_output_file s)

    pub no_data_lem : (s : Job) → no_data ceil_div o a enxio s ≡ finish s
    unfolding no_data
    no_data_lem s = finalize_lem s

  module _ (plan : IsPlan ceil_div o p) (a : Answers) (s : Job) (i : ℕ)
      (c : Core ceil_div o p s) where
    at_found :
        (d : ℕ) → s.input.pos ≤ d → (if ltb s.input.pos d then move_to d s else s) ≡ move_to d s
    at_found d l = elim (Bool-cases (ltb s.input.pos d)) [
      | inl e ↦ rw e refl
      | inr e ↦ rw e (ap (λ (x : ℕ). move_to x s) (stays s.input.pos d l e))
    ]

    hole_lem :
        (d h : ℕ)
        → d < h
        → seek_file_hole ceil_div o a i (pos h) (move_to d s)
          ≡ target_populate_buffer ceil_div o a i (searched s i d h)
    unfolding seek_file_hole
    hole_lem d h l = rw (lt→ltb d h l) refl

    found_lem :
        (d h : ℕ)
        → s.input.pos ≤ d
        → d < h
        → a.hole_offset ≡ pos h
        → seek_file ceil_div o a i (pos d) s
          ≡ target_populate_buffer ceil_div o a i (searched s i d h)
    unfolding seek_file
    found_lem d h l b e = rw (at_found d l, e) (hole_lem d h b)

    goes_lem : is_stopped s ≡ false
    goes_lem = rw (c.calm, c.running) refl

    at_end :
        (sub64 s.copy_size (sub64 s.input.pos (read_region_start o)) == 0) ≡ true
        → s.input.pos ≡ read_region_start o + p.size
    at_end e =
        let q = (==_iff (sub64 s.copy_size (sub64 s.input.pos (read_region_start o))) 0).0 e in
        omega (arith, q, c.sized, c.low, c.high, plan.input_fits)

    -- The answers of lseek, for any result of the first call.
    file_cases :
        Extends a
        → (P : Job → Type 0) → (z : ℤ) → Found z a.data_errno a.hole_offset s.input.pos
        → ((e : ℕ)
            → z ≡ negsuc e
            → ((y : ℕ) → s.input.pos ≤ y → y < read_region_start o + p.size → p.input y ≡ 0)
            → P (finish s))
        → ((d h : ℕ)
            → IsData d h s.input.pos
            → P (target_populate_buffer ceil_div o a i (searched s i d h)))
        → P (seek_file ceil_div o a i z s)
    unfolding seek_file
    file_cases x P (pos d) (h, e, f) none_left found =
        subst P (sym (found_lem d h f.0 f.4 e)) (found d h f)
    file_cases x P (negsuc e) f none_left found =
        subst P (sym (ap (λ (n : ℕ). no_data ceil_div o a n s) f.0 ∙ no_data_lem a x s))
          (none_left e refl f.1)

    -- The four things that a unit does next: it takes bytes of a plain input, it ends with all bytes
    -- taken or no data left, or it takes bytes of a piece of data.
    pub seek_cases :
        IsSearch a s.input.pos
        → (P : Job → Type 0) → (o.sparse ≡ false → P (target_populate_buffer ceil_div o a i s))
        → (o.sparse ≡ true → s.input.pos ≡ read_region_start o + p.size → P (finish s))
        → (o.sparse ≡ true
            → (e : ℕ) → a.data_offset ≡ negsuc e
            → ((y : ℕ) → s.input.pos ≤ y → y < read_region_start o + p.size → p.input y ≡ 0)
            → P (finish s))
        → (o.sparse ≡ true
            → (d h : ℕ) → IsData d h s.input.pos
            → P (target_populate_buffer ceil_div o a i (searched s i d h)))
        → P (target_seek ceil_div o a i s)
    unfolding target_seek seek_target
    seek_cases honest P dense end none_left found =
        either P o.sparse _ _
          (λ sp.
            either P
              ((sub64 s.copy_size (sub64 s.input.pos (read_region_start o)) == 0) || is_stopped s) _
              _ (λ e. end sp (at_end (left_of _ (is_stopped s) e goes_lem)))
              (λ e.
                subst (λ (k : TargetType). P (seek_target ceil_div o a i k s))
                  (sym (c.from_file sp))
                  (file_cases (honest sp).1 P a.data_offset (honest sp).0 (none_left sp)
                    (found sp))))
          dense
