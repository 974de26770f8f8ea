-- ===== src/Server/Registration.antt =====
-- The registry and the loop of `broadcast`.
use kvadra_top.Base.{
  ℕ, zero, suc, ◌≡◌, refl, ◌∙◌, ap, sym, inl, inr, Bool, true, false, ◌||◌, ◌&&◌, not, Option, none,
  some, List, [], ◌∷◌, ◌++◌, ◌==◌, if◌then◌else◌, get_elem?, arith, Bool-cases, Option-cases,
  ==_iff,
}
use kvadra_top.Text.{Bytes}
use kvadra_top.Server.Session.{Session, is_alive, send}
use kvadra_top.Server.Hub.{Hub, member, add, remove, modify, lock, send_all, prune, broadcast}

-- No session stands twice.
abbrev pub Unique : List ℕ → Type 0
Unique [] = Unit
Unique (i ∷ is) = (member i is ≡ false) × Unique is

member-append : (j : ℕ) (is : List ℕ) (i : ℕ) → member j (is ++ i ∷ []) ≡ (member j is || (j == i))
unfolding member
member-append j [] i = ground arith
member-append j (k ∷ is) i = elim (Bool-cases (j == k)) [
  | inl e ↦ rw e refl
  | inr e ↦ rw e (member-append j is i)
]

Unique-append : (is : List ℕ) (i : ℕ) → Unique is → member i is ≡ false → Unique (is ++ i ∷ [])
unfolding member
Unique-append [] i u n = (refl, tt)
Unique-append (k ∷ is) i u n =
    (rw (member-append k is i) (let h = u.0 in ground arith), Unique-append is i u.1 (ground arith))

pub add-Unique : (i : ℕ) (is : List ℕ) → Unique is → Unique (add i is)
unfolding add
add-Unique i is u = elim (Bool-cases (member i is)) [
  | inl e ↦ rw e u
  | inr e ↦ rw e (Unique-append is i u e)
]

pub member-add : (j i : ℕ) (is : List ℕ) → member j (add i is) ≡ ((j == i) || member j is)
unfolding add
member-add j i is = elim (Bool-cases (member i is)) [
  | inl e ↦ rw e (elim (Bool-cases (j == i)) [
    | inl q ↦
        let same = ==_iff j i in
        rw q (let j_i : j ≡ i = ground arith in ap (λ k. member k is) j_i ∙ e)
    | inr q ↦ rw q refl
  ])
  | inr e ↦ rw e (member-append j is i ∙ ground arith)
]

pub member-remove :
    (j i : ℕ) (is : List ℕ) → Unique is → member j (remove i is) ≡ (not (j == i) && member j is)
unfolding member remove
member-remove j i [] u = ground arith
member-remove j i (k ∷ is) u =
    let rest = member-remove j i is u.1 in
    let absent : member k is ≡ false = u.0 in
    elim (Bool-cases (k == i)) [
      | inl e ↦
          let k_i : k ≡ i = (==_iff k i).0 e in
          rw e (elim (Bool-cases (j == k)) [
            | inl q ↦
                let j_k : j ≡ k = (==_iff j k).0 q in
                let same : member j is ≡ member k is = ap (λ n. member n is) j_k in ground arith
            | inr q ↦ ground arith
          ])
      | inr e ↦ rw (e, member, rest) (ground arith)
    ]

pub remove-Unique : (i : ℕ) (is : List ℕ) → Unique is → Unique (remove i is)
unfolding remove
remove-Unique i [] u = tt
remove-Unique i (k ∷ is) u = elim (Bool-cases (k == i)) [
  | inl e ↦ rw e u.1
  | inr e ↦ rw e (rw (member-remove k i is u.1, e) u.0, remove-Unique i is u.1)
]

-- The entry of the session `i`, and the others.
pub get_elem?-modify :
    (i : ℕ) (f : Session → Session) (ss : List Session) (s : Session)
    → get_elem? ss i ≡ some s
    → get_elem? (modify i f ss) i ≡ some (f s)
get_elem?-modify i f [] s e = absurd (ground arith)
get_elem?-modify zero f (x ∷ ss) s e = let x_s : x ≡ s = cc in ap (λ t. some (f t)) x_s
get_elem?-modify (suc i) f (x ∷ ss) s e = get_elem?-modify i f ss s e

modify-none :
    (i : ℕ) (f : Session → Session) (ss : List Session)
    → get_elem? ss i ≡ none
    → get_elem? (modify i f ss) i ≡ none
modify-none i f [] e = refl
modify-none zero f (x ∷ ss) e = absurd (ground arith)
modify-none (suc i) f (x ∷ ss) e = modify-none i f ss e

pub get_elem?-modify_other :
    (i j : ℕ) (f : Session → Session) (ss : List Session)
    → (j == i) ≡ false
    → get_elem? (modify i f ss) j ≡ get_elem? ss j
get_elem?-modify_other i j f [] n = refl
get_elem?-modify_other zero zero f (x ∷ ss) n = absurd (ground arith)
get_elem?-modify_other zero (suc j) f (x ∷ ss) n = refl
get_elem?-modify_other (suc i) zero f (x ∷ ss) n = refl
get_elem?-modify_other (suc i) (suc j) f (x ∷ ss) n = get_elem?-modify_other i j f ss (ground arith)

-- What a broadcast does to one session: it is sent the message if it is registered and lives.
abbrev pub deliver : Bytes → Bool → Option Session → Option Session
deliver m registered none = none
deliver m registered (some s) = some (if registered && is_alive s then send m s else s)

pub lock-some :
    (ss : List Session) (i : ℕ) (s : Session) → get_elem? ss i ≡ some s → lock ss i ≡ is_alive s
unfolding lock
lock-some ss i s e = rw (e, lock) refl

lock-none : (ss : List Session) (i : ℕ) → get_elem? ss i ≡ none → lock ss i ≡ false
unfolding lock
lock-none ss i e = rw (e, lock) refl

abbrev touched : Bytes → ℕ → List Session → List Session
touched m i ss = if lock ss i then modify i (send m) ss else ss

touched-same :
    (m : Bytes) (i : ℕ) (ss : List Session)
    → get_elem? (touched m i ss) i ≡ deliver m true (get_elem? ss i)
touched-same m i ss = elim (Option-cases (get_elem? ss i)) [
  | inl e ↦ rw (lock-none ss i e, e) refl
  | inr (s, e) ↦
      rw (lock-some ss i s e, e)
        (elim (Bool-cases (is_alive s)) [
          | inl a ↦ rw a (get_elem?-modify i (send m) ss s e)
          | inr a ↦ rw a e
        ])
]

touched-other :
    (m : Bytes) (i j : ℕ) (ss : List Session)
    → (j == i) ≡ false
    → get_elem? (touched m i ss) j ≡ get_elem? ss j
touched-other m i j ss n = elim (Bool-cases (lock ss i)) [
  | inl a ↦ rw a (get_elem?-modify_other i j (send m) ss n)
  | inr a ↦ rw a refl
]

deliver-false : (m : Bytes) (o : Option Session) → deliver m false o ≡ o
deliver-false m none = refl
deliver-false m (some s) = refl

send_all-deliver :
    (m : Bytes) (is : List ℕ) (ss : List Session) (j : ℕ)
    → Unique is
    → get_elem? (send_all m is ss) j ≡ deliver m (member j is) (get_elem? ss j)
unfolding send_all member
send_all-deliver m [] ss j u = sym (deliver-false m (get_elem? ss j))
send_all-deliver m (i ∷ is) ss j u =
    send_all-deliver m is (touched m i ss) j u.1 ∙ elim (Bool-cases (j == i)) [
      | inl e ↦
          let j_i : j ≡ i = (==_iff j i).0 e in
          rw (e, j_i, u.0) (deliver-false m _ ∙ touched-same m i ss)
      | inr e ↦ rw e (ap (deliver m (member j is)) (touched-other m i j ss e))
    ]

member-prune :
    (is : List ℕ) (ss : List Session) (j : ℕ) → member j (prune is ss) ≡ (member j is && lock ss j)
unfolding prune member
member-prune [] ss j = refl
member-prune (i ∷ is) ss j =
    let rest = member-prune is ss j in
    elim (Bool-cases (j == i)) [
      | inl q ↦
          let j_i : j ≡ i = (==_iff j i).0 q in
          let same : lock ss j ≡ lock ss i = ap (lock ss) j_i in
          elim (Bool-cases (lock ss i)) [
            | inl e ↦ rw (e, member, q, same, e) refl
            | inr e ↦ rw (e, rest, same, e) (ground arith)
          ]
      | inr q ↦ elim (Bool-cases (lock ss i)) [
        | inl e ↦ rw (e, member, q) rest
        | inr e ↦ rw (e, q) rest
      ]
    ]

prune-Unique : (is : List ℕ) (ss : List Session) → Unique is → Unique (prune is ss)
unfolding prune
prune-Unique [] ss u = tt
prune-Unique (i ∷ is) ss u = elim (Bool-cases (lock ss i)) [
  | inl e ↦ rw e (rw (member-prune is ss i, u.0) refl, prune-Unique is ss u.1)
  | inr e ↦ rw e (prune-Unique is ss u.1)
]

-- A broadcast posts the message to each session that is registered and lives, once, and to no other;
-- sessions keep their names. The registry then holds those that were registered and lived.
pub broadcast_lem :
    (m : Bytes) (h : Hub) (i : ℕ)
    → Unique h.registry
    → let after = broadcast m h in
      (get_elem? after.sessions i ≡ deliver m (member i h.registry) (get_elem? h.sessions i))
      × (member i after.registry ≡ (member i h.registry && lock h.sessions i))
      × Unique after.registry
unfolding broadcast
broadcast_lem m h i u = (
  send_all-deliver m h.registry h.sessions i u,
  member-prune h.registry h.sessions i,
  prune-Unique h.registry h.sessions u,
)
