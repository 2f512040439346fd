-- ===== src/Wire/StatusFrame.antt =====
-- `EncodeStatus` of internal/hubwire/codec.go: the rows that a status frame shows are the first ones,
-- as many as fit into one line, and the frame says whether some are left out.
use agentchute.Prelude.{
  ℕ, ◌+◌, ◌≡◌, ◌≤◌, ◌⊎◌, inl, inr, refl, ap, sym, ◌∙◌, Bool, Bool-cases, true, false, ◌||◌, none,
  subst, Option-cases, List, [], ◌∷◌, ◌++◌, append_assoc, append-nil, Text, length, length-append,
  ltb, leb, ℤ, arith,
}
use agentchute.Clock.{Time}
use agentchute.Status.{StatusAgent}
use agentchute.Wire.{
  Wired, Wired-cases, gives_inj, fails, gives, frame_too_large, malformed_frame, end_of_input, Json,
  StatusOk, status_ok, max_control_line, max_status_rows,
}
use agentchute.Wire.Encoding.{
  encode_control, encode_frame, fill, encode_status, body_bytes, add_body_len,
  validate_outbound_frame,
}

module _ {Registration Rest : Type 0} (json : Json Registration Rest) (re : ℤ) (now : Time) where
  abbrev frame : Bool → List StatusAgent → StatusOk
  frame truncated rows = record { re = re; agents = rows; truncated = truncated; now = now }

  -- The line of a frame with these rows, where there is one.
  abbrev pub line_of : Bool → List StatusAgent → Wired Text
  line_of truncated rows = encode_frame json (status_ok (frame truncated rows)) none

  encode_frame-IsLine :
      (st : StatusOk) (line : Text)
      → encode_frame json (status_ok st) none ≡ gives line
      → (length line ≤ max_control_line) × ((control : Text) × (line ≡ control ++ 10 ∷ []))
  unfolding encode_frame encode_control add_body_len validate_outbound_frame body_bytes
  encode_frame-IsLine st line h = elim (Option-cases (json.marshal (status_ok st))) [
    | inl n ↦ absurd (ground arith)
    | inr (c, n) ↦ elim (Bool-cases (ltb max_control_line (length c + 1))) [
      | inl b ↦ absurd (ground arith)
      | inr b ↦
          let same : line ≡ c ++ 10 ∷ [] = ground (arith, append-nil (c ++ 10 ∷ [])) in
          (ground (arith, ap length same, length-append c (10 ∷ [])), (c, same))
    ]
  ]

  -- The rows shown are the first ones, at most 64, and the loop stopped only at the 64th row or where
  -- one row more did not fit.
  abbrev Filled : List StatusAgent → List StatusAgent → Bool → Type 0
  Filled rows shown stopped =
      (hidden : List StatusAgent) × (rows ≡ shown ++ hidden)
      × (length shown ≤ max_status_rows)
      × (((stopped ≡ false) × (hidden ≡ []))
          ⊎ ((stopped ≡ true)
              × ((row : StatusAgent) × ((others : List StatusAgent) × (hidden ≡ row ∷ others)
                    × ((length shown ≡ max_status_rows)
                        ⊎ (line_of false (shown ++ row ∷ []) ≡ fails frame_too_large))))))

  stops :
      (rows before shown : List StatusAgent) (b stopped : Bool)
      → Filled rows before b
      → let p : List StatusAgent × Bool = (before, b) in
        let q : List StatusAgent × Bool = (shown, stopped) in
        gives p ≡ gives q → Filled rows shown stopped
  stops rows before shown b stopped h k =
      let p : List StatusAgent × Bool = (before, b) in
      let q : List StatusAgent × Bool = (shown, stopped) in
      subst (λ (y : List StatusAgent × Bool). Filled rows y.0 y.1) (gives_inj p q k) h

  fill-Filled :
      (before rows shown : List StatusAgent) (stopped : Bool)
      → length before ≤ max_status_rows
      → fill json re now (length before) before rows ≡ gives (shown, stopped)
      → Filled (before ++ rows) shown stopped
  unfolding fill
  fill-Filled before [] shown stopped k h =
      stops (before ++ []) before shown false stopped ([], refl, k, inl (refl, refl)) h
  fill-Filled before (row ∷ rows) shown stopped k h =
      let all = before ++ row ∷ rows in
      elim (Bool-cases (leb max_status_rows (length before))) [
        | inl b ↦
            stops all before shown true stopped
              (row ∷ rows, refl, k, inr (refl, (row, (rows, refl, inl (ground arith)))))
              (ground arith)
        | inr b ↦ elim (Wired-cases (line_of false (before ++ row ∷ []))) [
          | inl (frame_too_large, w) ↦
              stops all before shown true stopped
                (row ∷ rows, refl, k, inr (refl, (row, (rows, refl, inr w)))) (ground arith)
          | inl (malformed_frame, w) ↦ absurd (ground arith)
          | inl (end_of_input, w) ↦ absurd (ground arith)
          | inr (line, w) ↦
              let (fits, _) = encode_frame-IsLine (frame false (before ++ row ∷ [])) line w in
              let c : ltb max_control_line (length line) ≡ false = ground arith in
              let n : length before + 1 ≡ length (before ++ row ∷ []) =
                omega (arith, length-append before (row ∷ [])) in
              let next : fill json re now (length (before ++ row ∷ [])) (before ++ row ∷ []) rows
                  ≡ gives (shown, stopped) =
                ap (λ (m : ℕ). fill json re now m (before ++ row ∷ []) rows) (sym n)
                ∙ ground arith in
              subst (λ (u : List StatusAgent). Filled u shown stopped)
                (append_assoc before (row ∷ []) rows)
                (fill-Filled (before ++ row ∷ []) rows shown stopped (ground arith) next)
        ]
      ]

  truncated_iff :
      (rows shown : List StatusAgent) (stopped : Bool)
      → Filled rows shown stopped
      → (stopped || ltb (length shown) (length rows)) ≡ stopped
  truncated_iff rows shown stopped (hidden, e, _, inl (s, n)) =
      let same : rows ≡ shown =
        e ∙ ap (λ (u : List StatusAgent). shown ++ u) n ∙ append-nil shown in
      ground (arith, ap length same)
  truncated_iff rows shown stopped (hidden, e, _, inr (s, _)) = ground arith

  -- The line and the frame in it, for these rows of the pool.
  abbrev pub IsStatus : List StatusAgent → Text → StatusOk → Type 0
  IsStatus rows line out =
      (length line ≤ max_control_line)
      × ((control : Text) × (line ≡ control ++ 10 ∷ []))
      × (line_of out.truncated out.agents ≡ gives line)
      × Filled rows out.agents out.truncated

  -- A status frame is one line of at most 64 KiB with its newline. It shows the first rows of the
  -- pool, 64 at most, in their order; it says that it is truncated exactly when rows are left out, and
  -- rows are left out only where 64 are shown or where a frame with one row more is too large.
  pub encode_status-Bounded :
      (rows : List StatusAgent) (line : Text) (out : StatusOk)
      → encode_status json re now rows ≡ gives (line, out)
      → IsStatus rows line out
  unfolding encode_status
  encode_status-Bounded rows line out h = elim (Wired-cases (fill json re now 0 [] rows)) [
    | inl (e, w) ↦ absurd (ground arith)
    | inr ((shown, stopped), w) ↦
        let all = fill-Filled [] rows shown stopped (omega arith) w in
        let t : Bool = stopped || ltb (length shown) (length rows) in
        let same : stopped ≡ t = sym (truncated_iff rows shown stopped all) in
        elim (Wired-cases (line_of t shown)) [
          | inl (e, v) ↦ absurd (ground arith)
          | inr (l, v) ↦
              let (a, b) = encode_frame-IsLine (frame t shown) l v in
              let p : Text × StatusOk = (l, frame t shown) in
              let q : Text × StatusOk = (line, out) in
              subst (λ (y : Text × StatusOk). IsStatus rows y.0 y.1) (gives_inj p q (ground arith))
                (a, b, v, subst (λ (u : Bool). Filled rows shown u) same all)
        ]
  ]
