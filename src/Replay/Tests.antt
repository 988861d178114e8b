-- ===== src/Replay/Tests.antt =====
-- A recording on concrete inputs, with files that are not compressed.
use gooophira_mp.Prelude.{true, none, some, List, [], ◌∷◌}
use gooophira_mp.Prelude.Int.{pos, negsuc}
use gooophira_mp.Protocol.Commands.{TouchFrame, JudgeEvent}
use gooophira_mp.Replay.Format.{Compression}
use gooophira_mp.Replay.Recorder.{Disk, Recorder, Song, Participant}
use gooophira_mp.Replay.Calls.{Call}

abbrev plain : Compression
plain = record { deflate = some; inflate = some; decode_zstd = λ bs. none }

abbrev idle : Recorder
idle = record { root_dir = 114 ∷ []; inflight = []; keys_by_room = []; completed = [] }

abbrev song : Song
song = record { song_chart = pos 5; song_name = 67 ∷ [] }

-- A player, and the bot that is in every room.
abbrev users : List Participant
users = record { id = pos 3; name = 65 ∷ [] } ∷ record { id = negsuc 0; name = 66 ∷ [] } ∷ []

abbrev frame : TouchFrame
frame = record { time = 9; points = [] }

abbrev judge : JudgeEvent
judge = record { time = 9; line_id = 4294967295; note_id = 2; judgement = 1 }

-- Nothing fails.
abbrev disk : Disk
disk = record { makes_dir = λ root user chart. true; writes = λ path. true }

abbrev history : List Call
history =
    Call.touches 7 3 (frame ∷ [])
    ∷ Call.start 8 song users (pos 50)
    ∷ Call.judges 7 3 (judge ∷ [])
    ∷ Call.finish 8 disk
    ∷ Call.record_number 7 3 (pos 12)
    ∷ Call.touches 7 3 (frame ∷ frame ∷ [])
    ∷ []
