-- ===== src/Dd/Invariant/Searched.antt =====
-- A free unit of src/app/spdk_dd.c that searches for its next bytes keeps the invariant.
use Prim.Native.Nat.{min}
use native.Mathlib.Nat.{dvd-sub, dvd_of_mod-eq-zero, mod-eq-zero_of_dvd}
use bdev_ubi.Common.{
  ℕ, ◌+◌, ◌-◌, ◌%◌, ◌≤◌, ◌<◌, ◌≡◌, ◌≢◌, refl, sym, ap, ◌∙◌, ◌⊎◌, inl, inr, true, false, none, ◌==◌,
  ==_iff, Bool-cases, arith, pos, negsuc, ℤ, [], subst,
}
use bdev_ubi.Dd.{Opts, Job, Answers, read_region_start}
use bdev_ubi.Dd.Copy.{finish}
use bdev_ubi.Dd.Seek.{target_seek}
use bdev_ubi.Dd.Invariant.{Plan, IsPlan, Core, Covered, Arrived}
use bdev_ubi.Dd.Invariant.Total.{busy, busy_flight, sum-update}
use bdev_ubi.Dd.Invariant.Moves.{IsUnit-mono}
use bdev_ubi.Dd.Invariant.Finish.{Inv, finish-Inv, finish_busy}
use bdev_ubi.Dd.Invariant.Take.{ne→false}
use bdev_ubi.Dd.Invariant.Taken.{take-Inv, take_others}
use bdev_ubi.Dd.Invariant.Steps.{same}
use bdev_ubi.Dd.Invariant.Search.{IsData, IsSearch, searched, seek_cases}

-- A unit of whole blocks, or of data up to a hole at a block's start, or of the last data.
shorter : (m k x : ℕ) → x ≡ min m k → ((x ≡ m) × (m ≤ k)) ⊎ (x ≡ k)
shorter m k x e = omega arith

before_or : (x y : ℕ) → (y < x) ⊎ (x ≤ y)
before_or x y = omega arith

abbrev IsPos : ℤ → Type 0
IsPos (pos d) = Unit {0}
IsPos (negsuc e) = ⊥

neg_or_pos : (d e : ℕ) → pos d ≢ negsuc e
neg_or_pos d e q = subst IsPos q tt

module _ (ceil_div : ℕ → ℕ → ℕ) (o : Opts) (p : Plan) (plan : IsPlan ceil_div o p) (s : Job) (i : ℕ)
    (c : Core ceil_div o p s) (hi : i < p.n) (free : (s.ios i).flight ≡ none) where
  -- A byte before the found data was taken before, or it is of a hole.
  hole_byte :
      o.sparse ≡ true
      → (d j : ℕ) → ((y : ℕ) → s.input.pos ≤ y → y < d → p.input y ≡ 0)
      → d ≤ read_region_start o + p.size
      → read_region_start o + j < d
      → Covered ceil_div o p s j
  hole_byte sp d j zero_bytes le h = elim (before_or s.input.pos (read_region_start o + j)) [
    | inl l ↦ c.covered j l
    | inr l ↦ inl (
        subst (λ b. Arrived ceil_div o p b s.disk j) (sym sp)
          (inr (zero_bytes (read_region_start o + j) l h, c.untaken j l (omega (arith, le)))))
  ]

  module _ (sp : o.sparse ≡ true) (d h : ℕ) (f : IsData ceil_div o p d h s.input.pos) where
    searched-Covered :
        (j : ℕ)
        → read_region_start o + j < d
        → Covered ceil_div o p (searched ceil_div o p s i d h) j
    searched-Covered j l = elim (hole_byte sp d j f.3 (omega (arith, f.1)) l) [
      | inl e ↦ inl e
      | inr (k, hk, own) ↦ elim (Bool-cases (k == i)) [
        | inl e ↦
            let b = ap busy_flight free in
            let own' = rw ((==_iff k i).0 e) at own in absurd (omega (arith, own'.0, b))
        | inr e ↦ inr (k, hk, rw e own)
      ]
    ]

    pub searched-Core : Core ceil_div o p (searched ceil_div o p s i d h)
    searched-Core = record {
      sized = c.sized;
      blocks = c.blocks;
      from_file = c.from_file;
      calm = c.calm;
      running = c.running;
      low = omega (arith, c.low, f.0);
      high = omega (arith, f.1);
      aligned = inl f.2;
      counted = omega (
        arith,
        c.counted,
        sum-update busy p.n s.ios i (record (s.ios i) { length = min o.io_unit_size (h - d) }) hi,
      );
      units = λ k hk. elim (Bool-cases (k == i)) [
        | inl e ↦ rw (e, free) tt
        | inr e ↦
            rw e
              (IsUnit-mono ceil_div o p s.input.pos d (s.ios k) (s.ios k).flight f.0 (c.units k hk))
      ];
      covered = searched-Covered;
      untaken = λ j l b. c.untaken j (omega (arith, f.0, l)) b;
      ahead = c.ahead;
      behind = c.behind;
    }

    pub searched_free : ((searched ceil_div o p s i d h).ios i).flight ≡ none
    searched_free = rw (same i) free

    searched_length : 0 < ((searched ceil_div o p s i d h).ios i).length
    searched_length = rw (same i) (omega (arith, plan.unit_bytes, f.4))

    -- The unit has whole blocks, or the input's last byte.
    searched_whole :
        (((searched ceil_div o p s i d h).ios i).length % p.block ≡ 0)
        ⊎ (read_region_start o + p.size ≤ d + ((searched ceil_div o p s i d h).ios i).length)
    searched_whole =
        rw (same i) (elim (shorter o.io_unit_size (h - d) (min o.io_unit_size (h - d)) refl) [
          | inl (e, l) ↦ inl (ap (λ x. x % p.block) e ∙ plan.unit_blocks)
          | inr e ↦ elim f.6 [
            | inl m ↦ inl (
                ap (λ x. x % p.block) (e ∙ omega (arith, c.low, f.0, f.4))
                ∙ mod-eq-zero_of_dvd p.block (
                    dvd-sub p.block (dvd_of_mod-eq-zero p.block m)
                      (dvd_of_mod-eq-zero p.block f.2)))
            | inr w ↦ inr (omega (arith, e, w, f.4))
          ]
        ])

  goes_on :
      s.exits ≡ []
      → 0 < s.outstanding
      → ((finish s).exits ≡ []) × ((k : ℕ) → (k == i) ≡ false → (finish s).ios k ≡ s.ios k)
  goes_on x b = rw (finish_busy s (ne→false s.outstanding (omega (arith, b)))) (x, λ k q. refl)

  elsewhere : (d h k : ℕ) → (k == i) ≡ false → (searched ceil_div o p s i d h).ios k ≡ s.ios k
  elsewhere d h k q = rw q refl

  module _ (a : Answers) (ok : a.submit_rc ≡ pos 0)
      (honest : IsSearch ceil_div o p a s.input.pos) where
    -- A free unit that goes on: afterwards the invariant holds, whatever was left.
    pub seek-Inv :
        s.exits ≡ []
        → 0 < (s.ios i).length
        → ((s.ios i).length % p.block ≡ 0)
          ⊎ (read_region_start o + p.size ≤ s.input.pos + (s.ios i).length)
        → Inv ceil_div o p (target_seek ceil_div o a i s)
    seek-Inv x l whole =
        seek_cases ceil_div o p plan a s i c honest (Inv ceil_div o p)
          (λ dense. take-Inv ceil_div o p plan a ok s i c hi free x l whole)
          (λ sp end. finish-Inv ceil_div o p s c x (λ j h. c.covered j (omega (arith, end, h))))
          (λ sp e q none_left. finish-Inv ceil_div o p s c x (λ j h.
            hole_byte sp (read_region_start o + p.size) j none_left (omega arith)
              (omega (arith, h))))
          (λ sp d h f.
            take-Inv ceil_div o p plan a ok (searched ceil_div o p s i d h) i
              (searched-Core sp d h f) hi (searched_free sp d h f) x (searched_length sp d h f)
              (searched_whole sp d h f))

    -- Nobody is told while something is in flight, or data are found, and another unit is as before.
    pub seek_others :
        s.exits ≡ []
        → 0 < (s.ios i).length
        → (0 < s.outstanding)
          ⊎ ((s.input.pos < read_region_start o + p.size)
              × (o.sparse ≡ true → (d : ℕ) × (a.data_offset ≡ pos d)))
        → (((target_seek ceil_div o a i s).exits ≡ [])
            × ((k : ℕ) → (k == i) ≡ false → (target_seek ceil_div o a i s).ios k ≡ s.ios k))
    seek_others x l more =
        seek_cases ceil_div o p plan a s i c honest
          (λ t. (t.exits ≡ []) × ((k : ℕ) → (k == i) ≡ false → t.ios k ≡ s.ios k))
          (λ dense.
            take_others ceil_div o p plan a ok s i c hi free x l
              (elim more [ inl b ↦ inl b | inr (b, q) ↦ inr b ]))
          (λ sp end.
            goes_on x (elim more [ inl b ↦ b | inr (b, q) ↦ absurd (omega (arith, b, end)) ]))
          (λ sp e q none_left. goes_on x (elim more [
            | inl b ↦ b
            | inr (b, r) ↦ absurd (neg_or_pos (r sp).0 e (sym (r sp).1 ∙ q))
          ]))
          (λ sp d h f.
            let t =
              take_others ceil_div o p plan a ok (searched ceil_div o p s i d h) i
                (searched-Core sp d h f) hi (searched_free sp d h f) x (searched_length sp d h f)
                (inr f.1) in
            (t.0, λ k q. t.1 k q ∙ elsewhere d h k q))
