-- ===== src/Replay/Entries.antt =====
-- The entries of the recorder under their keys.
use gooophira_mp.Prelude.{
  ℕ, ◌≡◌, refl, ◌∙◌, Bool, true, false, ◌&&◌, inl, inr, Option, none, some, List, [], ◌∷◌, ◌==◌,
  if◌then◌else◌, arith, Bool-cases, Option-cases, ==_refl,
}
use gooophira_mp.Prelude.Int.{ℤ, pos, negsuc}
use gooophira_mp.Replay.Recorder.{
  InFlight, Song, Participant, has_key, get, delete_key, put, modify, value_at, delete_at, set_at,
  new_inflight, start_user, start_users, has_number, add_key, keys_of, delete_keys,
}

abbrev pub same_key : ℕ → ℕ → ℕ → ℕ → Bool
same_key room user r u = (r == room) && (u == user)

-- A change applied to what is there.
abbrev pub changed : (InFlight → InFlight) → Option InFlight → Option InFlight
changed f none = none
changed f (some it) = some (f it)

pub get-modify :
    (room user r u : ℕ) (f : InFlight → InFlight) (entries : List InFlight)
    → ((room user : ℕ) (it : InFlight) → has_key room user (f it) ≡ has_key room user it)
    → get room user (modify r u f entries) ≡ (
        if same_key room user r u then changed f (get room user entries) else get room user entries)
unfolding get modify has_key
get-modify room user r u f [] same = ground arith
get-modify room user r u f (it ∷ rest) same =
    ground (arith, same room user it, get-modify room user r u f rest same)

pub get-delete_key :
    (room user r u : ℕ) (entries : List InFlight)
    → get room user (delete_key r u entries)
      ≡ (if same_key room user r u then none else get room user entries)
unfolding get delete_key has_key
get-delete_key room user r u [] = ground arith
get-delete_key room user r u (it ∷ rest) = ground (arith, get-delete_key room user r u rest)

pub get-put :
    (room user : ℕ) (it : InFlight) (entries : List InFlight)
    → get room user (put it entries)
      ≡ (if has_key room user it then some it else get room user entries)
unfolding get put has_key
get-put room user it entries =
    ground (arith, get-delete_key room user it.room_key it.user_id entries)

pub get-delete_keys_other :
    (room user r : ℕ) (ks : List ℕ) (entries : List InFlight)
    → (r == room) ≡ false
    → get room user (delete_keys r ks entries) ≡ get room user entries
unfolding delete_keys
get-delete_keys_other room user r [] entries h = refl
get-delete_keys_other room user r (k ∷ ks) entries h =
    get-delete_keys_other room user r ks (delete_key r k entries) h
    ∙ ground (arith, h, get-delete_key room user r k entries)

pub value_at-delete_at_other {ℓ} :
    {A : Type ℓ} (room r : ℕ) (m : List (ℕ × List A))
    → (r == room) ≡ false
    → value_at room (delete_at r m) ≡ value_at room m
unfolding value_at delete_at
value_at-delete_at_other room r [] h = refl
value_at-delete_at_other room r ((n, xs) ∷ m) h =
    ground (arith, h, value_at-delete_at_other room r m h)

pub value_at-set_at_other {ℓ} :
    {A : Type ℓ} (room r : ℕ) (xs : List A) (m : List (ℕ × List A))
    → (r == room) ≡ false
    → value_at room (set_at r xs m) ≡ value_at room m
unfolding value_at set_at
value_at-set_at_other room r [] m h = refl
value_at-set_at_other room r (x ∷ xs) m h = ground (arith, h, value_at-delete_at_other room r m h)

pub value_at-set_at {ℓ} :
    {A : Type ℓ} (room : ℕ) (x : A) (xs : List A) (m : List (ℕ × List A))
    → value_at room (set_at room (x ∷ xs) m) ≡ x ∷ xs
unfolding value_at set_at
value_at-set_at room x xs m = rw (==_refl room) refl

-- The name under which a user takes part: that of the last entry with the id.
abbrev pub is_user : ℕ → ℤ → Bool
is_user user (pos n) = n == user
is_user user (negsuc n) = false

unfoldable pub name_of : ℕ → List Participant → Option (List ℕ)
name_of user [] = none
name_of user (p ∷ ps) =
    let later = name_of user ps in
    elim later [ some name ↦ some name | none ↦ if is_user user p.id then some p.name else none ]

new-has_key :
    (base : List ℕ) (room : ℕ) (song : Song) (now : ℤ) (user : ℕ) (name : List ℕ)
    → has_key room user (new_inflight base room song now user name) ≡ true
unfolding has_key new_inflight
new-has_key base room song now user name = ground arith

other_key :
    (base : List ℕ) (room : ℕ) (song : Song) (now : ℤ) (n : ℕ) (name : List ℕ) (user : ℕ)
    (entries : List InFlight)
    → (n == user) ≡ false
    → (if has_key room user (new_inflight base room song now n name)
        then some (new_inflight base room song now n name)
        else get room user entries)
      ≡ get room user entries
unfolding has_key new_inflight
other_key base room song now n name user entries h = ground (arith, h)

other_room :
    (base : List ℕ) (r : ℕ) (song : Song) (now : ℤ) (n : ℕ) (name : List ℕ) (room user : ℕ)
    (entries : List InFlight)
    → (r == room) ≡ false
    → (if has_key room user (new_inflight base r song now n name)
        then some (new_inflight base r song now n name)
        else get room user entries)
      ≡ get room user entries
unfolding has_key new_inflight
other_room base r song now n name room user entries h = ground (arith, h)

get-start_user :
    (base : List ℕ) (room : ℕ) (song : Song) (now id : ℤ) (name : List ℕ) (user : ℕ)
    (entries : List InFlight)
    → get room user (start_user base room song now id name entries) ≡ (
        if is_user user id
        then some (new_inflight base room song now user name)
        else get room user entries)
unfolding start_user
get-start_user base room song now (negsuc n) name user entries = refl
get-start_user base room song now (pos n) name user entries = elim (Bool-cases (n == user)) [
  | inl same ↦
      let e : n ≡ user = ground (arith, same) in
      rw (e, ==_refl user)
        (get-put room user (new_inflight base room song now user name) entries
          ∙ rw (new-has_key base room song now user name) refl)
  | inr other ↦ rw other (
      get-put room user (new_inflight base room song now n name) entries
      ∙ other_key base room song now n name user entries other)
]

pub get-start_users :
    (base : List ℕ) (room : ℕ) (song : Song) (now : ℤ) (ps : List Participant) (user : ℕ)
    (entries : List InFlight)
    → get room user (start_users base room song now ps entries) ≡ elim (name_of user ps) [
      | some name ↦ some (new_inflight base room song now user name)
      | none ↦ get room user entries
    ]
unfolding start_users name_of
get-start_users base room song now [] user entries = refl
get-start_users base room song now (p ∷ ps) user entries = ground (
  arith,
  get-start_users base room song now ps user (start_user base room song now p.id p.name entries),
  get-start_user base room song now p.id p.name user entries,
)

get-start_user_other :
    (base : List ℕ) (r : ℕ) (song : Song) (now id : ℤ) (name : List ℕ) (room user : ℕ)
    (entries : List InFlight)
    → (r == room) ≡ false
    → get room user (start_user base r song now id name entries) ≡ get room user entries
unfolding start_user
get-start_user_other base r song now (negsuc n) name room user entries h = refl
get-start_user_other base r song now (pos n) name room user entries h =
    get-put room user (new_inflight base r song now n name) entries
    ∙ other_room base r song now n name room user entries h

pub get-start_users_other :
    (base : List ℕ) (r : ℕ) (song : Song) (now : ℤ) (ps : List Participant) (room user : ℕ)
    (entries : List InFlight)
    → (r == room) ≡ false
    → get room user (start_users base r song now ps entries) ≡ get room user entries
unfolding start_users
get-start_users_other base r song now [] room user entries h = refl
get-start_users_other base r song now (p ∷ ps) room user entries h =
    get-start_users_other base r song now ps room user
      (start_user base r song now p.id p.name entries) h
    ∙ get-start_user_other base r song now p.id p.name room user entries h

-- Who takes part has a key.
has_number-add_key :
    (user : ℕ) (id : ℤ) (ks : List ℕ)
    → has_number user (add_key id ks) ≡ (if is_user user id then true else has_number user ks)
unfolding add_key has_number
has_number-add_key user (negsuc n) ks = refl
has_number-add_key user (pos n) ks = elim (Bool-cases (n == user)) [
  | inl same ↦ let e : n ≡ user = ground (arith, same) in rw (e) (ground (arith))
  | inr other ↦ ground (arith, other)
]

pub name_of-has_number :
    (user : ℕ) (ps : List Participant) (name : List ℕ)
    → name_of user ps ≡ some name
    → has_number user (keys_of ps) ≡ true
unfolding name_of keys_of
name_of-has_number user [] name h = absurd (cc h)
name_of-has_number user (p ∷ ps) name h =
    has_number-add_key user p.id (keys_of ps) ∙ elim (Option-cases (name_of user ps)) [
      | inl gone ↦ ground (arith, gone, h)
      | inr (n, there) ↦ ground (arith, name_of-has_number user ps n there)
    ]
