-- ===== src/Server/Registry.antt =====
-- What the registry says of the sessions, and that every event of a session keeps it true.
use mathlib.Core.Path.{subst}
use kvadra_top.Base.{
  true, false, if◌then◌else◌, ℕ, zero, suc, ◌≡◌, refl, ◌∙◌, inl, inr, Bool, false, Option, none,
  some, List, [], ◌∷◌, ◌++◌, ◌==◌, get_elem?, arith, Bool-cases, Option-cases, ==_iff,
}
use kvadra_top.Text.{Bytes}
use kvadra_top.Server.Session.{Session, Change, keep, enter, leave, escape, handle, Event, start}
use kvadra_top.Server.Hub.{Hub, member, launch, on_event, apply_change, replaced}
use kvadra_top.Server.Registration.{
  member-add, member-remove, add-Unique, remove-Unique, get_elem?-modify, get_elem?-modify_other,
  Unique,
}
use kvadra_top.Server.Handshake.{Agrees, StaysAgreed, changed, handle-Agrees}

-- The registry has no name twice, and it agrees with every session.
abbrev pub IsConsistent : Hub → Type 0
IsConsistent h =
    Unique h.registry × ((i : ℕ) → Agrees (get_elem? h.sessions i) (member i h.registry))

pub launch-IsConsistent : (root : Bytes) → IsConsistent (launch root)
unfolding launch member
launch-IsConsistent root = (tt, λ i. refl)

pub get_elem?-accepted :
    (root : Bytes) (ss : List Session) (js : ℕ → Bool)
    → ((i : ℕ) → Agrees (get_elem? ss i) (js i))
    → (i : ℕ) → Agrees (get_elem? (ss ++ start root ∷ []) i) (js i)
unfolding start
get_elem?-accepted root [] js a zero =
    (let n : js 0 ≡ false = a 0 in λ b. absurd (ground arith), λ o. (refl, refl, refl, refl))
get_elem?-accepted root [] js a (suc i) = a (suc i)
get_elem?-accepted root (x ∷ ss) js a zero = a zero
get_elem?-accepted root (x ∷ ss) js a (suc i) =
    get_elem?-accepted root ss (λ k. js (suc k)) (λ k. a (suc k)) i

change-Unique : (c : Change) (i : ℕ) (is : List ℕ) → Unique is → Unique (apply_change c i is)
unfolding apply_change
change-Unique keep i is u = u
change-Unique enter i is u = add-Unique i is u
change-Unique leave i is u = remove-Unique i is u
change-Unique escape i is u = u

pub member-change :
    (c : Change) (i : ℕ) (is : List ℕ)
    → Unique is
    → member i (apply_change c i is) ≡ changed c (member i is)
unfolding apply_change
member-change keep i is u = refl
member-change enter i is u = member-add i i is ∙ ground arith
member-change leave i is u = member-remove i i is u ∙ ground arith
member-change escape i is u = refl

pub member-change_other :
    (c : Change) (i j : ℕ) (is : List ℕ)
    → Unique is
    → (j == i) ≡ false
    → member j (apply_change c i is) ≡ member j is
unfolding apply_change
member-change_other keep i j is u n = refl
member-change_other enter i j is u n = member-add j i is ∙ ground arith
member-change_other leave i j is u n = member-remove j i is u ∙ ground arith
member-change_other escape i j is u n = refl

abbrev pub StaysConsistent : Option Hub → Type 0
StaysConsistent none = Unit
StaysConsistent (some h) = IsConsistent h

replaced-IsConsistent :
    (i : ℕ) (h : Hub) (s after : Session) (c : Change)
    → get_elem? h.sessions i ≡ some s
    → (Agrees (some s) (member i h.registry)
        → Agrees (some after) (changed c (member i h.registry)))
    → IsConsistent h
    → IsConsistent (replaced i h (after, c))
unfolding apply_change
replaced-IsConsistent i h s after c e next v = (
  change-Unique c i h.registry v.0,
  λ j. elim (Bool-cases (j == i)) [
    | inl q ↦
        let j_i : j ≡ i = (==_iff j i).0 q in
        let old : Agrees (some s) (member i h.registry) =
          subst (λ o. Agrees o (member i h.registry)) e (v.1 i) in
        rw (j_i, get_elem?-modify i (λ _. after) h.sessions s e, member-change c i h.registry v.0)
          (next old)
    | inr q ↦
        rw
          (
            get_elem?-modify_other i j (λ _. after) h.sessions q,
            member-change_other c i j h.registry v.0 q,
          )
          (v.1 j)
  ],
)

pub on_event-IsConsistent :
    (i : ℕ) (e : Event) (h : Hub) → IsConsistent h → StaysConsistent (on_event i e h)
unfolding on_event
on_event-IsConsistent i e h v = elim (Option-cases (get_elem? h.sessions i)) [
  | inl n ↦ rw (n, StaysConsistent, on_event) tt
  | inr (s, n) ↦ elim (Option-cases (handle e s)) [
    | inl m ↦ rw (n, StaysConsistent, on_event, m) tt
    | inr ((after, c), m) ↦
        rw (n, StaysConsistent, on_event, m)
          (replaced-IsConsistent i h s after c n
            (λ a.
              subst (StaysAgreed (member i h.registry)) m
                (handle-Agrees e s (member i h.registry) a))
            v)
  ]
]

-- What holds after a step that only the thread of the io_context makes.
pub while_running :
    (P : Option Hub → Type 0) (b : Bool) (o : Option Hub) → P none → P o → P (if b then o else none)
while_running P true o n h = h
while_running P false o n h = n
