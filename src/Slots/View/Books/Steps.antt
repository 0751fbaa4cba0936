-- ===== src/Slots/View/Books/Steps.antt =====
-- What the steps of the mount service are to the books.
use hyperagents.Base.{
  ℕ, ◌+◌, ◌-◌, ◌≡◌, ◌≢◌, refl, ap, sym, ◌∙◌, ◌⊎◌, inl, inr, none, some, ℕ_discrete, eq→==, ne→==,
  arith, Option-cases, Option,
}
use hyperagents.Base.Int.{ℤ, pos, ◌+ℤ◌, ◌-ℤ◌}
use hyperagents.Slots.View.{Service, change, assign, without, on_device}
use hyperagents.Slots.View.Serves.{Serves, again, fresh, evict}
use hyperagents.Slots.View.Steps.{on_device_self, on_device_other, without_self, without_other}
use hyperagents.Slots.View.Books.{
  Books, one_more, one_less, one_more_self, one_more_other, one_less_other,
}

-- A service in which `h` has got device `d` for one mount more.
record Gives (h d : ℕ) (c : ℕ → ℕ) (m m' : Service) : Type 0 where
  mine : m' h ≡ some (d, pos (c h + 1))
  others : (g : ℕ) → g ≢ h → (m' g ≡ m g) ⊎ ((m' g ≡ none) × (c g ≡ 0))
  clash : (g e : ℕ) (v : ℤ) → g ≢ h → m' g ≡ some (e, v) → e ≢ d

pos_suc : (n : ℕ) → pos n +ℤ pos 1 ≡ pos (n + 1)
unfolding ◌+ℤ◌
pos_suc n = ground arith

pos_pred : (n : ℕ) → n ≢ 0 → pos n -ℤ pos 1 ≡ pos (n - 1)
unfolding ◌-ℤ◌ ◌+ℤ◌
pos_pred n ne = ground arith

-- An instance that is mounted nowhere has no open mounts.
closed_lem : (c : ℕ → ℕ) (m : Service) (h : ℕ) → Books c m → m h ≡ none → c h ≡ 0
closed_lem c m h books free = elim (ℕ_discrete (c h) 0) [
  | yes z ↦ z
  | no ne ↦ absurd (ground (arith, free, (books.open_mounts h ne).1))
]

assign_self : (h d : ℕ) (m : Service) → assign h d m h ≡ some (d, pos 1)
assign_self h d m = rw (eq→== h h refl) refl

assign_other : (g h d : ℕ) (m : Service) → g ≢ h → assign h d m g ≡ without d (m g)
assign_other g h d m ne = rw (ne→== g h ne) refl

-- Taking device `d` away from an instance.
without-cases :
    (d : ℕ) (x : Option (ℕ × ℤ))
    → ((u : ℤ) × (x ≡ some (d, u)) × (without d x ≡ none))
      ⊎ ((without d x ≡ x) × ((e : ℕ) (v : ℤ) → x ≡ some (e, v) → e ≢ d))
without-cases d none = inr (refl, λ e v z. cc)
without-cases d (some (e, v)) = elim (ℕ_discrete e d) [
  | yes same ↦ inl (v, ap (λ (n : ℕ). some (n, v)) same, without_self e d v same)
  | no ne ↦ inr (without_other e d v ne, λ e' v' z eq. ne (ground (arith, z, eq)))
]

-- The users of the device of `h` are those of `h`.
change_other :
    (h d : ℕ) (c : ℕ → ℕ) (m : Service) (f : ℤ → ℤ) (u : ℤ)
    → Books c m
    → m h ≡ some (d, u)
    → (g : ℕ) → g ≢ h
    → change d f m g ≡ m g
change_other h d c m f u books at g ne = elim (Option-cases (m g)) [
  | inl none_at ↦ ap (on_device d f) none_at ∙ sym none_at
  | inr ((e, v), at') ↦
      ap (on_device d f) at'
      ∙ on_device_other d e f v (λ z. ne (books.apart g h d v u (rw z at') at))
      ∙ sym at'
]

assign-Gives :
    (h d : ℕ) (c : ℕ → ℕ) (m : Service)
    → c h ≡ 0
    → ((g : ℕ) (u : ℤ) → m g ≡ some (d, u) → c g ≡ 0)
    → Gives h d c m (assign h d m)
assign-Gives h d c m closed released = record {
  mine = rw closed (assign_self h d m);
  others = λ g ne. elim (without-cases d (m g)) [
    | inl (u, at, gone) ↦ inr (assign_other g h d m ne ∙ gone, released g u at)
    | inr (kept, away) ↦ inl (assign_other g h d m ne ∙ kept)
  ];
  clash = λ g e v ne at eq. elim (without-cases d (m g)) [
    | inl (u, at', gone) ↦ absurd (ground (arith, at, gone, assign_other g h d m ne))
    | inr (kept, away) ↦ away e v (sym kept ∙ sym (assign_other g h d m ne) ∙ at) eq
  ];
}

Serves-Gives :
    (h d : ℕ) (c : ℕ → ℕ) {m m' : Service} → Books c m → Serves h d m m' → Gives h d c m m'
Serves-Gives h d c {m} books (again u at) = record {
  mine =
      ap (on_device d (λ n. n +ℤ pos 1)) at
      ∙ on_device_self d (λ n. n +ℤ pos 1) u
      ∙ ap (λ (n : ℤ). some (d, n +ℤ pos 1)) (books.users h d u at)
      ∙ ap (λ (n : ℤ). some (d, n)) (pos_suc (c h));
  others = λ g ne. inl (same g ne);
  clash = λ g e v ne at' eq. ne (books.apart g h d v u (rw (← eq) (sym (same g ne) ∙ at')) at);
}
  where
    same : (g : ℕ) → g ≢ h → change d (λ n. n +ℤ pos 1) m g ≡ m g
    same = change_other h d c m (λ n. n +ℤ pos 1) u books at
Serves-Gives h d c {m} books (fresh free unused) =
    assign-Gives h d c m (closed_lem c m h books free) (λ g u at. absurd (unused g d u at refl))
Serves-Gives h d c {m} books (evict g0 free at) =
    assign-Gives h d c m (closed_lem c m h books free) (λ g u at'.
      let same : g ≡ g0 = books.apart g g0 d u (pos 0) at' at in
      ground (arith, books.users g0 d (pos 0) at, same))

module _ (h d : ℕ) (c : ℕ → ℕ) (m m' : Service) (books : Books c m) where
  Gives-Books : Gives h d c m m' → Books (one_more h c) m'
  Gives-Books gives = record {
    open_mounts = λ g some_open. elim (ℕ_discrete g h) [
      | yes same ↦ (d, rw (same, one_more_self h c) gives.mine)
      | no ne ↦
          let still : c g ≢ 0 = λ z. some_open (one_more_other g h c ne ∙ z) in
          elim (gives.others g ne) [
            | inl kept ↦
                let (e, at) = books.open_mounts g still in
                (e, rw (one_more_other g h c ne) (kept ∙ at))
            | inr (_, closed) ↦ absurd (still closed)
          ]
    ];
    users = λ g e u at. elim (ℕ_discrete g h) [
      | yes same ↦ ground (arith, at, gives.mine, same, one_more_self h c)
      | no ne ↦ elim (gives.others g ne) [
        | inl kept ↦ rw (one_more_other g h c ne) (books.users g e u (sym kept ∙ at))
        | inr (gone, closed) ↦ absurd (ground (arith, gone, at))
      ]
    ];
    apart = λ g g' e u v at at'. elim (ℕ_discrete g h) [
      | yes same ↦ elim (ℕ_discrete g' h) [
        | yes same' ↦ same ∙ sym same'
        | no ne' ↦ absurd (gives.clash g' e v ne' at' (ground (arith, at, gives.mine, same)))
      ]
      | no ne ↦ elim (ℕ_discrete g' h) [
        | yes same' ↦ absurd (gives.clash g e u ne at (ground (arith, at', gives.mine, same')))
        | no ne' ↦ elim (gives.others g ne) [
          | inr (gone, _) ↦ absurd (ground (arith, gone, at))
          | inl kept ↦ elim (gives.others g' ne') [
            | inr (gone, _) ↦ absurd (ground (arith, gone, at'))
            | inl kept' ↦ books.apart g g' e u v (sym kept ∙ at) (sym kept' ∙ at')
          ]
        ]
      ]
    ];
  }

-- Serving a request books one mount more, at the device given; who has open mounts keeps its device
-- and its users.
pub Serves-Books :
    (h d : ℕ) (c : ℕ → ℕ) {m m' : Service}
    → Books c m
    → Serves h d m m'
    → Books (one_more h c) m'
      × (m' h ≡ some (d, pos (one_more h c h)))
      × ((g : ℕ) → g ≢ h → c g ≢ 0 → m' g ≡ m g)
Serves-Books h d c {m} {m'} books served =
    let gives = Serves-Gives h d c books served in
    (
      Gives-Books h d c m m' books gives,
      rw (one_more_self h c) gives.mine,
      λ g ne still. elim (gives.others g ne) [
        | inl kept ↦ kept
        | inr (_, closed) ↦ absurd (still closed)
      ],
    )

-- So does the release of one of the mounts, with one mount less.
pub change-Books :
    (h d : ℕ) (c : ℕ → ℕ) (m : Service)
    → Books c m
    → c h ≢ 0
    → m h ≡ some (d, pos (c h))
    → Books (one_less h c) (change d (λ n. n -ℤ pos 1) m)
      × (change d (λ n. n -ℤ pos 1) m h ≡ some (d, pos (one_less h c h)))
      × ((g : ℕ) → g ≢ h → change d (λ n. n -ℤ pos 1) m g ≡ m g)
change-Books h d c m books some_open at = (
  record {
    open_mounts = λ g still. elim (ℕ_discrete g h) [
      | yes eq ↦ (d, rw eq mine)
      | no ne ↦
          let (e, at') = books.open_mounts g (λ z. still (one_less_other g h c ne ∙ z)) in
          (e, same g ne ∙ at' ∙ ap (λ (n : ℕ). some (e, pos n)) (sym (one_less_other g h c ne)))
    ];
    users = λ g e u at'. elim (ℕ_discrete g h) [
      | yes eq ↦ ground (arith, at', mine, eq)
      | no ne ↦ books.users g e u (sym (same g ne) ∙ at') ∙ ap pos (sym (one_less_other g h c ne))
    ];
    apart = λ g g' e u v at' at''.
        let (u', was) = origin g e u at' in
        let (v', was') = origin g' e v at'' in books.apart g g' e u' v' was was';
  },
  mine,
  same,
)
  where
    fewer : Service
    fewer = change d (λ n. n -ℤ pos 1) m

    mine : fewer h ≡ some (d, pos (one_less h c h))
    mine =
        ap (on_device d (λ n. n -ℤ pos 1)) at
        ∙ on_device_self d (λ n. n -ℤ pos 1) (pos (c h))
        ∙ ap (λ (n : ℤ). some (d, n)) (pos_pred (c h) some_open)
        ∙ rw (eq→== h h refl) refl

    same : (g : ℕ) → g ≢ h → fewer g ≡ m g
    same = change_other h d c m (λ n. n -ℤ pos 1) (pos (c h)) books at

    origin : (g e : ℕ) (u : ℤ) → fewer g ≡ some (e, u) → (v : ℤ) × (m g ≡ some (e, v))
    origin g e u at' = elim (ℕ_discrete g h) [
      | yes eq ↦
          let same_device : d ≡ e = ground (arith, at', mine, eq) in
          (pos (c h), rw (eq, ← same_device) at)
      | no ne ↦ (u, sym (same g ne) ∙ at')
    ]
