-- ===== src/Server/Turn/Logs.antt =====
-- The bounds of the log of a room, AddLog of internal/core/server/model_room.go.
use gooophira_mp.Prelude.{
  false, ltb→le, ℕ, zero, suc, ◌-◌, ◌≤◌, ◌≡◌, Option, none, some, List, [], ◌∷◌, ◌++◌, length, take,
  drop, ltb, All, All-append, if-cases, arith, length-append, length-drop, length-take,
}
use gooophira_mp.Protocol.Commands.{Message}
use gooophira_mp.Server.Model.{RoomLog, append_log, truncate_message}
use gooophira_mp.Server.Turn.{
  Turn, RoomLifecycle, log_line, logged_line, log_message, send, with_room, emit,
}

abbrev pub IsShort : RoomLog → Type 0
IsShort entry = length entry.message ≤ 1003

-- At most 50 entries, each of at most 1003 bytes.
abbrev pub IsBoundedLog : List RoomLog → Type 0
IsBoundedLog logs = (length logs ≤ 50) × All IsShort logs

truncate_message-length : (m : List ℕ) → length (truncate_message m) ≤ 1003
unfolding truncate_message
truncate_message-length m =
    let cut : length (take 1000 m ++ 46 ∷ 46 ∷ 46 ∷ []) ≤ 1003 =
      omega (arith, length-append (take 1000 m) (46 ∷ 46 ∷ 46 ∷ []), length-take 1000 m) in
    let whole : ltb 1000 (length m) ≡ false → length m ≤ 1003 =
      λ e. omega (arith, ltb→le 1000 (length m) e) in
    if-cases (λ (t : List ℕ). length t ≤ 1003) (ltb 1000 (length m)) (λ e. cut) whole

All-drop {ℓ κ} : {A : Type ℓ} (P : A → Type κ) (n : ℕ) (xs : List A) → All P xs → All P (drop n xs)
All-drop P zero xs h = h
All-drop P (suc n) [] h = h
All-drop P (suc n) (x ∷ xs) (h, hs) = All-drop P n xs hs

append_log-bound :
    (logs : List RoomLog) (entry : RoomLog) → length logs ≤ 50 → length (append_log logs entry) ≤ 50
unfolding append_log
append_log-bound logs entry h =
    let all = logs ++ entry ∷ [] in
    let cut : length (drop (length all - 50) all) ≤ 50 =
      omega (arith, length-drop (length all - 50) all, length-append logs (entry ∷ [])) in
    let whole : ltb 50 (length all) ≡ false → length all ≤ 50 = λ e. ltb→le 50 (length all) e in
    if-cases (λ (kept : List RoomLog). length kept ≤ 50) (ltb 50 (length all)) (λ e. cut) whole

append_log-All :
    (logs : List RoomLog) (entry : RoomLog)
    → All IsShort logs
    → IsShort entry
    → All IsShort (append_log logs entry)
unfolding append_log
append_log-All logs entry hs h =
    let all = logs ++ entry ∷ [] in
    let short = All-append IsShort logs (entry ∷ []) hs (h, tt) in
    if-cases (All IsShort) (ltb 50 (length all)) (λ e. All-drop IsShort (length all - 50) all short)
      (λ e. short)

-- Whatever message is sent, a log of at most 50 entries of at most 1003 bytes stays such a log.
pub send-IsBoundedLog :
    (lc : RoomLifecycle) (msg : Message) (t : Turn)
    → IsBoundedLog t.room.recent_logs
    → IsBoundedLog (send lc msg t).room.recent_logs
unfolding send log_message with_room emit log_line
send-IsBoundedLog lc msg t (len, short) = line (logged_line lc msg)
  where
    line : (o : Option (List ℕ)) → IsBoundedLog (log_line o lc.now t.room.recent_logs)
    line none = (len, short)
    line (some text) = (
      append_log-bound t.room.recent_logs _ len,
      append_log-All t.room.recent_logs _ short (truncate_message-length text),
    )
