-- ===== src/Replay/Recorded.antt =====
-- What is recorded of a player stands in the file that is written.
use gooophira_mp.Prelude.{ℕ, ◌≡◌, List, take}
use gooophira_mp.Protocol.Commands.{TouchFrame, JudgeEvent}
use gooophira_mp.Replay.Format.{Compression, ReplayHeader}
use gooophira_mp.Replay.RoundTrip.{IsFile}
use gooophira_mp.Replay.Recorder.{FilePath, FileInfo, Recorder}
use gooophira_mp.Replay.Written.{IsAmong}

-- The file of a player in what the end of a room writes.
pub record IsRecorded (c : Compression) (h : ReplayHeader) (path : FilePath) (ts : List TouchFrame)
    (js : List JudgeEvent) (files : List (FileInfo × List ℕ)) : Type 0 where
  pub file_info : FileInfo
  pub bytes : List ℕ
  pub written : IsAmong file_info bytes files
  pub at_path : file_info.info_path ≡ path
  pub read : IsFile c h (take 15000 ts) (take 15000 js) bytes
