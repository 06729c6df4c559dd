-- ===== src/Dd/Drains.antt =====
-- A stopped job of src/app/spdk_dd.c submits nothing, whatever is next for a unit.
use bdev_ubi.Common.{
  ℕ, ◌<◌, ◌≡◌, refl, sym, ap, ◌∙◌, inl, inr, Bool, true, false, ◌||◌, ◌∷◌, ◌==◌, ==_iff, Bool-cases,
  if◌then◌else◌, is_zero, arith,
}
use bdev_ubi.Posix.{Memory}
use bdev_ubi.Dd.{
  Opts, SubmitType, dd_populate, dd_read, dd_write, Io, Job, Answers, is_stopped, update,
}
use bdev_ubi.Dd.Copy.{
  exit, show_progress, finish, target_read, target_write, target_populate_buffer,
}
use bdev_ubi.Dd.Seek.{target_seek}
use bdev_ubi.Dd.Events.{advance}

-- From `s` to `t` nothing was submitted, and `t` was told its error if nothing is in flight any more.
pub record Drains (s t : Job) : Type 0 where
  pub same_count : t.outstanding ≡ s.outstanding
  pub same_error : t.error ≡ s.error
  pub same_interrupt : t.interrupt ≡ s.interrupt
  pub same_flight : (k : ℕ) → (t.ios k).flight ≡ (s.ios k).flight
  pub last_told : s.outstanding ≡ 0 → t.exits ≡ s.error ∷ s.exits
  pub others_not : 0 < s.outstanding → t.exits ≡ s.exits

stay_lem : (s : Job) → (s.outstanding == 0) ≡ false → Drains s s
stay_lem s z = record {
  same_count = refl;
  same_error = refl;
  same_interrupt = refl;
  same_flight = λ k. refl;
  last_told = λ e. absurd (ground (arith, e, z));
  others_not = λ l. refl;
}

exit_lem : (s : Job) → (s.outstanding == 0) ≡ true → Drains s (exit s.error s)
unfolding exit
exit_lem s z = record {
  same_count = refl;
  same_error = refl;
  same_interrupt = refl;
  same_flight = λ k. refl;
  last_told = λ e. refl;
  others_not = λ l. absurd (ground (arith, l, z));
}

shown_lem : (s : Job) → (s.outstanding == 0) ≡ true → Drains s (exit s.error (show_progress s))
unfolding exit show_progress
shown_lem s z = record {
  same_count = refl;
  same_error = refl;
  same_interrupt = refl;
  same_flight = λ k. refl;
  last_told = λ e. refl;
  others_not = λ l. absurd (ground (arith, l, z));
}

finish_lem : (s : Job) → Drains s (finish s)
unfolding finish
finish_lem s = elim (Bool-cases (s.outstanding == 0)) [
  | inr z ↦ rw z (stay_lem s z)
  | inl z ↦ elim (Bool-cases (is_zero s.error)) [
    | inl e ↦ rw (z, e) (shown_lem s z)
    | inr e ↦ rw (z, e) (exit_lem s z)
  ]
]

end_lem : (s : Job) → Drains s (if s.outstanding == 0 then exit s.error s else s)
end_lem s = elim (Bool-cases (s.outstanding == 0)) [
  | inr z ↦ rw z (stay_lem s z)
  | inl z ↦ rw z (exit_lem s z)
]

pub either :
    (P : Job → Type 0) (b : Bool) (x y : Job)
    → (b ≡ true → P x)
    → (b ≡ false → P y)
    → P (if b then x else y)
either P true x y h k = h refl
either P false x y h k = k refl

or_true : (b c : Bool) → c ≡ true → (b || c) ≡ true
or_true true c e = refl
or_true false c e = e

-- A change of units that keeps what is in flight.
units_lem :
    (s t : Job) (ios : ℕ → Io)
    → ((k : ℕ) → (ios k).flight ≡ (s.ios k).flight)
    → Drains (record s { ios = ios }) t
    → Drains s t
units_lem s t ios f d = record {
  same_count = d.same_count;
  same_error = d.same_error;
  same_interrupt = d.same_interrupt;
  same_flight = λ k. d.same_flight k ∙ f k;
  last_told = d.last_told;
  others_not = d.others_not;
}

module _ (ceil_div : ℕ → ℕ → ℕ) (o : Opts) (input : Memory) (a : Answers) where
  module _ (s : Job) (i : ℕ) (stopped : is_stopped s ≡ true) where
    read_lem : Drains s (target_read ceil_div o a i s)
    unfolding target_read
    read_lem = rw stopped (end_lem s)

    write_lem : Drains s (target_write ceil_div o a i s)
    unfolding target_write
    write_lem = rw stopped (finish_lem s)

    moved_lem :
        (io : Io)
        → io.flight ≡ (s.ios i).flight
        → Drains s (finish (record s { ios = update s.ios i io }))
    moved_lem io e =
        units_lem s (finish (record s { ios = update s.ios i io })) (update s.ios i io)
          (λ k. elim (Bool-cases (k == i)) [
            | inl q ↦ rw q (e ∙ ap (λ (x : ℕ). (s.ios x).flight) (sym ((==_iff k i).0 q)))
            | inr q ↦ rw q refl
          ])
          (finish_lem (record s { ios = update s.ios i io }))

    populate_lem : Drains s (target_populate_buffer ceil_div o a i s)
    unfolding target_populate_buffer
    populate_lem = rw (or_true _ (is_stopped s) stopped) (moved_lem _ refl)

    seek_lem : Drains s (target_seek ceil_div o a i s)
    unfolding target_seek
    seek_lem = elim (Bool-cases o.sparse) [
      | inl e ↦ rw (e, or_true _ (is_stopped s) stopped) (finish_lem s)
      | inr e ↦ rw e populate_lem
    ]

    pub advance_lem : (k : SubmitType) → Drains s (advance ceil_div o input a k i s)
    unfolding advance
    advance_lem dd_populate = read_lem
    advance_lem dd_read = write_lem
    advance_lem dd_write = seek_lem
