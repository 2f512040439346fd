-- ===== src/Floor/Monotone.antt =====
-- The stamps of one sender only go up: internal/loop/floor.go.
use agentchute.Prelude.{
  ◌+◌, ◌<◌, ◌≡◌, ◌≢◌, refl, ap, sym, subst, ◌∙◌, inl, inr, ◌⊎◌, Bool-cases, Option-cases, true,
  some, List, [], ◌∷◌, ◌++◌, Text, same_text, same_text_iff, less_text, less_text_trans, arith,
}
use agentchute.Errors.{Result, ok, err, >>=-ok_inv, ok_inj}
use agentchute.Clock.{Time, microsecond}
use agentchute.Disk.{
  Slot, absent, corrupt, holds, WriteFaults, LockFaults, atomic_write_cases, with_agent_lock_cases,
}
use agentchute.Calendar.Civil.{civil_of}
use agentchute.Lease.{verify_fence}
use agentchute.Digits.{fixed}
use agentchute.Stamp.{width, format_stamp, parse_stamp, print_stamp}
use agentchute.Stamp.Order.{format_stamp-next}
use agentchute.Floor.{
  SendFloor, Sender, load_send_floor, check_fence, next_stamp, choose_stamp, saved, save_and_return,
  mint_send_stamp, MintEnv, mint, issued, mint_all,
}

-- The last stamp on disk; empty if there is none.
abbrev pub floor_text : Slot SendFloor → Text
floor_text (holds st) = st.last_issued
floor_text _ = []

-- The microsecond after the floor lies before the year 10000.
abbrev pub HasRoom : Text → Type 0
HasRoom last = (t : Time) → parse_stamp last ≡ some t → (civil_of (t + microsecond)).year < 10000

after_nothing : (s t : Text) → less_text [] t ≡ true → less_text [] (s ++ t) ≡ true
unfolding less_text
after_nothing [] t h = h
after_nothing (c ∷ s) t h = refl

-- No stamp is empty.
format_stamp-positive : (t : Time) → less_text [] (format_stamp t) ≡ true
unfolding format_stamp print_stamp less_text
format_stamp-positive t =
    after_nothing (fixed (width (civil_of t).year (civil_of t).year) (civil_of t).year) _ refl

next_stamp-less :
    (now : Time) (last stamp : Text)
    → HasRoom last
    → next_stamp now last ≡ ok stamp
    → less_text last stamp ≡ true
unfolding next_stamp
next_stamp-less now last stamp room h = elim (Bool-cases (same_text last [])) [
  | inl e ↦ ground (arith, same_text_iff last [], format_stamp-positive now)
  | inr e ↦ elim (Bool-cases (less_text last (format_stamp now))) [
    | inl l ↦ ground arith
    | inr l ↦ elim (Option-cases (parse_stamp last)) [
      | inl p ↦ absurd (ground arith)
      | inr (t, p) ↦ ground (arith, format_stamp-next last t p (room t p))
    ]
  ]
]

load_send_floor_text :
    (f : Slot SendFloor) (st : SendFloor)
    → load_send_floor f ≡ ok st
    → st.last_issued ≡ floor_text f
unfolding load_send_floor
load_send_floor_text absent st h = ground arith
load_send_floor_text corrupt st h = absurd (ground arith)
load_send_floor_text (holds x) st h = ground arith

-- What one choice of a stamp has checked.
pub record IsChoice (s : Sender) (now : Time) (token : Text) (st : SendFloor) (stamp : Text)
    : Type 0 where
  pub next : next_stamp now (floor_text s.floor) ≡ ok stamp
  pub records : st.last_issued ≡ stamp
  pub fence : check_fence token s.claim ≡ ok tt

choose_stamp-IsChoice :
    (now : Time) (token : Text) (s : Sender) (st : SendFloor) (stamp : Text)
    → choose_stamp now token s ≡ ok (st, stamp)
    → IsChoice s now token st stamp
unfolding choose_stamp
choose_stamp-IsChoice now token s st stamp h =
    let (old, e1, h1) = >>=-ok_inv _ (load_send_floor s.floor) h in
    let (u, e2, h2) = >>=-ok_inv _ (check_fence token s.claim) h1 in
    let (x, e3, h3) = >>=-ok_inv _ (next_stamp now old.last_issued) h2 in
    let p = ok_inj {A = SendFloor × Text} (record old { last_issued = x }, x) (st, stamp) h3 in
    let q : x ≡ stamp = λ i. (p i).1 in
    record {
      next = ap (next_stamp now) (sym (load_send_floor_text s.floor old e1)) ∙ e3 ∙ ap ok q;
      records = (λ i. (sym p i).0.last_issued) ∙ q;
      fence = e2;
    }

-- Every mint, also one that reports an error, leaves the floor as it was or raises it; and one that
-- hands out a stamp leaves that stamp as the floor.
pub record Raises (s u : Sender) (r : Result Text) : Type 0 where
  pub floor : (u.floor ≡ s.floor) ⊎ (less_text (floor_text s.floor) (floor_text u.floor) ≡ true)
  pub claim : u.claim ≡ s.claim
  pub stamp :
      (x : Text) → r ≡ ok x → (floor_text u.floor ≡ x) × (less_text (floor_text s.floor) x ≡ true)

save_and_return-Raises :
    (f : WriteFaults) (now : Time) (token : Text) (s : Sender)
    → HasRoom (floor_text s.floor)
    → Raises s
        (save_and_return f s (choose_stamp now token s)).1
        (save_and_return f s (choose_stamp now token s)).0
unfolding save_and_return
save_and_return-Raises f now token s room = go (choose_stamp now token s) refl
  where
    go :
        (c : Result (SendFloor × Text))
        → choose_stamp now token s ≡ c
        → Raises s (save_and_return f s c).1 (save_and_return f s c).0
    go (err e) h = record { floor = inl refl; claim = refl; stamp = λ x p. absurd (ground arith) }
    go (ok (st, y)) h =
        let c = choose_stamp-IsChoice now token s st y h in
        let up = next_stamp-less now (floor_text s.floor) y room c.next in
        elim (atomic_write_cases f st s.floor) [
          | inl w ↦
              rw (w, saved)
                (record {
                  floor = inr (ground (arith, c.records, up));
                  claim = refl;
                  stamp = λ x p. (ground (arith, c.records), ground (arith, up));
                })
          | inr (inl w) ↦
              rw (w, saved)
                (record { floor = inl refl; claim = refl; stamp = λ x p. absurd (ground arith) })
          | inr (inr w) ↦
              rw (w, saved)
                (record {
                  floor = inr (ground (arith, c.records, up));
                  claim = refl;
                  stamp = λ x p. absurd (ground arith);
                })
        ]

mint_send_stamp-Raises :
    (k : LockFaults) (f : WriteFaults) (from : Text) (now : Time) (token : Text) (s : Sender)
    → HasRoom (floor_text s.floor)
    → Raises s (mint_send_stamp k f from now token s).1 (mint_send_stamp k f from now token s).0
unfolding mint_send_stamp
mint_send_stamp-Raises k f from now token s room =
    elim (with_agent_lock_cases k from (λ u. save_and_return f u (choose_stamp now token u)) s) [
      | inl (e, h) ↦
          rw h (record { floor = inl refl; claim = refl; stamp = λ x p. absurd (ground arith) })
      | inr (h, v) ↦ rw h (save_and_return-Raises f now token s room)
    ]

-- A mint, whatever its clock shows and whichever of its calls fail, leaves the floor as it was or
-- raises it, and leaves the serve claim alone, as long as the microsecond after the floor lies
-- before the year 10000.
pub mint_send_stamp-raises_floor :
    (k : LockFaults) (f : WriteFaults) (from : Text) (now : Time) (token : Text) (s : Sender)
    → HasRoom (floor_text s.floor)
    → let u = (mint_send_stamp k f from now token s).1 in
      ((u.floor ≡ s.floor) ⊎ (less_text (floor_text s.floor) (floor_text u.floor) ≡ true))
      × (u.claim ≡ s.claim)
mint_send_stamp-raises_floor k f from now token s room =
    let r = mint_send_stamp-Raises k f from now token s room in (r.floor, r.claim)

-- A stamp that is handed out is greater than the floor before and is on disk as the floor
-- afterwards, as long as the microsecond after the floor lies before the year 10000.
pub mint_send_stamp-issues :
    (k : LockFaults) (f : WriteFaults) (from : Text) (now : Time) (token : Text) (s : Sender)
    (x : Text)
    → HasRoom (floor_text s.floor)
    → (mint_send_stamp k f from now token s).0 ≡ ok x
    → (floor_text (mint_send_stamp k f from now token s).1.floor ≡ x)
      × (less_text (floor_text s.floor) x ≡ true)
mint_send_stamp-issues k f from now token s x room h =
    (mint_send_stamp-Raises k f from now token s room).stamp x h

-- A mint that hands out a stamp under a serve token was made by the holder of the claim: the token,
-- if one is given, passes `verify_fence` on the claim on disk.
pub mint_send_stamp-fenced :
    (k : LockFaults) (f : WriteFaults) (from : Text) (now : Time) (token : Text) (s : Sender)
    (x : Text)
    → (mint_send_stamp k f from now token s).0 ≡ ok x
    → token ≢ []
    → verify_fence token s.claim ≡ ok tt
unfolding mint_send_stamp save_and_return check_fence
mint_send_stamp-fenced k f from now token s x h n =
    elim (with_agent_lock_cases k from (λ u. save_and_return f u (choose_stamp now token u)) s) [
      | inl (e, p) ↦ absurd (ground arith)
      | inr (p, v) ↦ go (choose_stamp now token s) refl (rw p at h)
    ]
  where
    go :
        (c : Result (SendFloor × Text))
        → choose_stamp now token s ≡ c
        → (save_and_return f s c).0 ≡ ok x
        → verify_fence token s.claim ≡ ok tt
    go (err e) p q = absurd (ground arith)
    go (ok (st, y)) p q =
        ground (arith, (choose_stamp-IsChoice now token s st y p).fence, same_text_iff token [])

-- Each floor along the way leaves room for one more microsecond before the year 10000.
abbrev pub Fits : Text → List MintEnv → Sender → Type 0
Fits from [] s = Unit
Fits from (e ∷ es) s = HasRoom (floor_text s.floor) × Fits from es (mint from e s).1

-- Every text is greater than the one before it, and the first than `low`.
abbrev pub Ascending : Text → List Text → Type 0
Ascending low [] = Unit
Ascending low (x ∷ xs) = (less_text low x ≡ true) × Ascending x xs

Ascending-lower :
    (low high : Text) (xs : List Text)
    → less_text low high ≡ true
    → Ascending high xs
    → Ascending low xs
Ascending-lower low high [] h a = tt
Ascending-lower low high (x ∷ xs) h a = (less_text_trans low high x h a.0, a.1)

Ascending-issued :
    (s u : Sender) (r : Result Text) (xs : List Text)
    → Raises s u r
    → Ascending (floor_text u.floor) xs
    → Ascending (floor_text s.floor) (issued r xs)
Ascending-issued s u (ok x) xs h a =
    ((h.stamp x refl).1, subst (λ (t : Text). Ascending t xs) (h.stamp x refl).0 a)
Ascending-issued s u (err e) xs h a = elim h.floor [
  | inl p ↦ subst (λ (t : Slot SendFloor). Ascending (floor_text t) xs) p a
  | inr p ↦ Ascending-lower (floor_text s.floor) (floor_text u.floor) xs p a
]

-- However often a sender mints, also across restarts, with clocks that run back and with calls that
-- fail, the stamps that are handed out are strictly ascending, and all greater than the floor that
-- was there before, as long as each floor leaves room for a microsecond before the year 10000.
pub mint_all-Ascending :
    (from : Text) (es : List MintEnv) (s : Sender)
    → Fits from es s
    → Ascending (floor_text s.floor) (mint_all from es s).0
unfolding mint_all
mint_all-Ascending from [] s fits = tt
mint_all-Ascending from (e ∷ es) s fits =
    Ascending-issued s (mint from e s).1 (mint from e s).0 (mint_all from es (mint from e s).1).0
      (mint_send_stamp-Raises e.lock e.write from e.now e.token s fits.0)
      (mint_all-Ascending from es (mint from e s).1 fits.1)
