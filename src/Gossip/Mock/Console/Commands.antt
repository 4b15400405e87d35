-- ===== src/Gossip/Mock/Console/Commands.antt =====
-- Which lines internal/driver/mock/console.go takes for commands.
use heis_test.Prelude.{
  List, [], ◌∷◌, true, false, some, ◌≡◌, refl, ap, arith, Bool-cases, Option-cases, inl, inr, sym,
  subst, ◌↔◌,
}
use heis_test.Prelude.Int.{ℤ}
use heis_test.Gossip.Model.Kinds.{Button}
use heis_test.Gossip.Model.Version.{eq_bytes}
use heis_test.Gossip.Mock.Console.{
  Word, Effect, press, set_obstruction, print_help, print_status, ok, atoi, floor_arg, press_at,
  obstruct, run_command, help_word, cab_word, hall_up_word, hall_down_word, obstruction_word,
  status_word, on_word, off_word,
}

-- The commands that there are.
pub data IsCommand : Word → List Word → Effect → Type 0 where
  help : (args : List Word) → IsCommand help_word args print_help
  cab :
      {w : Word} {f : ℤ}
      → atoi w ≡ some f
      → IsCommand cab_word (w ∷ []) (press (record { floor = f; button = Button.cab }))
  hall_up :
      {w : Word} {f : ℤ}
      → atoi w ≡ some f
      → IsCommand hall_up_word (w ∷ []) (press (record { floor = f; button = Button.hall_up }))
  hall_down :
      {w : Word} {f : ℤ}
      → atoi w ≡ some f
      → IsCommand hall_down_word (w ∷ []) (press (record { floor = f; button = Button.hall_down }))
  on : IsCommand obstruction_word (on_word ∷ []) (set_obstruction true)
  off : IsCommand obstruction_word (off_word ∷ []) (set_obstruction false)
  status : (args : List Word) → IsCommand status_word args print_status

command_runs :
    {w : Word} {args : List Word} {x : Effect} → IsCommand w args x → run_command w args ≡ ok x
unfolding run_command eq_bytes press_at floor_arg obstruct
command_runs (help args) = refl
command_runs (cab e) = rw e refl
command_runs (hall_up e) = rw e refl
command_runs (hall_down e) = rw e refl
command_runs on = refl
command_runs off = refl
command_runs (status args) = refl

eq_bytes_sound : (w v : Word) → eq_bytes w v ≡ true → w ≡ v
unfolding eq_bytes
eq_bytes_sound [] [] h = refl
eq_bytes_sound [] (y ∷ v) h = absurd (ground arith)
eq_bytes_sound (x ∷ w) [] h = absurd (ground arith)
eq_bytes_sound (x ∷ w) (y ∷ v) h = ground (arith, eq_bytes_sound w v)

same_command :
    {w v : Word} {args bs : List Word} {x y : Effect}
    → w ≡ v
    → args ≡ bs
    → x ≡ y
    → IsCommand w args x
    → IsCommand v bs y
same_command {v} {args} {bs} {x} p q r c =
    subst (λ z. IsCommand v bs z) r
      (subst (λ z. IsCommand v z x) q (subst (λ z. IsCommand z args x) p c))

press_shape :
    (b : Button) (args : List Word) (x : Effect)
    → press_at b args ≡ ok x
    → (w : Word) × (f : ℤ) × (args ≡ w ∷ [])
      × (atoi w ≡ some f)
      × (x ≡ press (record { floor = f; button = b }))
unfolding press_at floor_arg
press_shape b [] x h = absurd (ground arith)
press_shape b (w ∷ []) x h = elim (Option-cases (atoi w)) [
  | inl e ↦ absurd (ground arith)
  | inr (f, e) ↦ (w, f, refl, e, ground arith)
]
press_shape b (w ∷ v ∷ ws) x h = absurd (ground arith)

obstruct_shape :
    (args : List Word) (x : Effect) → obstruct args ≡ ok x → IsCommand obstruction_word args x
unfolding obstruct
obstruct_shape [] x h = absurd (ground arith)
obstruct_shape (w ∷ []) x h = elim (Bool-cases (eq_bytes w on_word)) [
  | inl e ↦
      same_command refl (ap (λ v. v ∷ []) (sym (eq_bytes_sound w on_word e))) (ground arith) on
  | inr e ↦
      let o : eq_bytes w off_word ≡ true = ground arith in
      same_command refl (ap (λ v. v ∷ []) (sym (eq_bytes_sound w off_word o))) (ground arith) off
]
obstruct_shape (w ∷ v ∷ ws) x h = absurd (ground arith)

press_command :
    {name : Word} (b : Button)
    → ((w : Word) (f : ℤ)
        → atoi w ≡ some f
        → IsCommand name (w ∷ []) (press (record { floor = f; button = b })))
    → (args : List Word) (x : Effect) → press_at b args ≡ ok x
    → IsCommand name args x
press_command b make args x h =
    let (w, f, shape, e, out) = press_shape b args x h in
    same_command refl (sym shape) (sym out) (make w f e)

command_found :
    (w : Word) (args : List Word) (x : Effect) → run_command w args ≡ ok x → IsCommand w args x
unfolding run_command
command_found w args x h = elim (Bool-cases (eq_bytes w help_word)) [
  | inl e ↦ same_command (sym (eq_bytes_sound w help_word e)) refl (ground arith) (help args)
  | inr n₁ ↦ elim (Bool-cases (eq_bytes w cab_word)) [
    | inl e ↦
        same_command (sym (eq_bytes_sound w cab_word e)) refl refl
          (press_command Button.cab (λ w f e. cab e) args x (ground arith))
    | inr n₂ ↦ elim (Bool-cases (eq_bytes w hall_up_word)) [
      | inl e ↦
          same_command (sym (eq_bytes_sound w hall_up_word e)) refl refl
            (press_command Button.hall_up (λ w f e. hall_up e) args x (ground arith))
      | inr n₃ ↦ elim (Bool-cases (eq_bytes w hall_down_word)) [
        | inl e ↦
            same_command (sym (eq_bytes_sound w hall_down_word e)) refl refl
              (press_command Button.hall_down (λ w f e. hall_down e) args x (ground arith))
        | inr n₄ ↦ elim (Bool-cases (eq_bytes w obstruction_word)) [
          | inl e ↦
              same_command (sym (eq_bytes_sound w obstruction_word e)) refl refl
                (obstruct_shape args x (ground arith))
          | inr n₅ ↦ elim (Bool-cases (eq_bytes w status_word)) [
            | inl e ↦
                same_command (sym (eq_bytes_sound w status_word e)) refl (ground arith)
                  (status args)
            | inr n₆ ↦ absurd (ground arith)
          ]
        ]
      ]
    ]
  ]
]

-- A line of the console has an effect exactly if it is a command: `help` or `status`, with anything
-- behind, `cab`, `hall-up` or `hall-down` with one word that `Atoi` takes, whose number is the
-- floor that is pressed, or `obstruction` with `on` or `off` alone. So every other line is an
-- error.
pub run_command_iff :
    (w : Word) (args : List Word) (x : Effect) → (run_command w args ≡ ok x) ↔ IsCommand w args x
run_command_iff w args x = (command_found w args x, command_runs)
