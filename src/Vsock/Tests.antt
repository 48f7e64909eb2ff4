-- ===== src/Vsock/Tests.antt =====
-- Concrete frames and requests, and the theorems about them at concrete inputs.
use a_from_scratch_linux_use.Base.{
  ℕ, ◌+◌, ◌≤◌, ◌≡◌, refl, some, none, [], ◌∷◌, ◌++◌, arith, Bytes, str, take,
}
use a_from_scratch_linux_use.Vsock.Frame.{
  max_frame_size, read_frame, read_payload, uint32_of, frame, ok, err, unexpected_eof,
}
use a_from_scratch_linux_use.Vsock.Frame.RoundTrip.{
  read_frame-frame, read_frame-take, read_frame_sound,
}
use a_from_scratch_linux_use.Vsock.Protocol.{Request}
use a_from_scratch_linux_use.Vsock.Server.{Provider, Surroundings, dispatch_command}
use a_from_scratch_linux_use.Vsock.Server.Effects.{perform, requested, dispatch_command-requested}
use a_from_scratch_linux_use.Vsock.Server.Answers.{Answers, dispatch_command-Answers}
use a_from_scratch_linux_use.Vsock.Server.Errors.{error_of}

read_frame-frame_example : read_frame (frame (7 ∷ 8 ∷ []) ++ 9 ∷ []) ≡ ok (7 ∷ 8 ∷ []) (9 ∷ [])
read_frame-frame_example = read_frame-frame (7 ∷ 8 ∷ []) (9 ∷ []) (omega arith)

read_frame-take_example : read_frame (take 3 (frame (7 ∷ 8 ∷ []))) ≡ err unexpected_eof
read_frame-take_example = read_frame-take (7 ∷ 8 ∷ []) 3 (omega arith) (omega arith)

read_one : read_frame (0 ∷ 0 ∷ 0 ∷ 1 ∷ 5 ∷ 6 ∷ []) ≡ ok (5 ∷ []) (6 ∷ [])
unfolding read_frame read_payload uint32_of
read_one = refl

read_frame_sound_example :
    (◌≡◌ {A = Bytes} (0 ∷ 0 ∷ 0 ∷ 1 ∷ 5 ∷ 6 ∷ []) (frame (5 ∷ []) ++ 6 ∷ [])) × (1 ≤ max_frame_size)
read_frame_sound_example =
    read_frame_sound (0 ∷ 0 ∷ 0 ∷ 1 ∷ 5 ∷ 6 ∷ []) (5 ∷ []) (6 ∷ []) (omega arith) read_one

-- A provider that counts the services started.
abbrev counting : Provider ℕ ℕ
counting = record {
  list_services = λ n. (n, []);
  start_service = λ name n. (n + 1, none);
  stop_service = λ name n. (n, some (str "not found"));
  get_service_logs = λ name n. (n, [], none);
  quiesce = λ n. (n, none);
  unquiesce = λ n. (n, none);
  load_service = λ c n. (n + 1, none);
  apply_bundle = λ c n. (n + 1, none);
}

abbrev quiet : Surroundings ℕ
quiet = record {
  runtime_stats = 0;
  obsd_metrics = (0, some (str "obsd daemon un-reachable"));
  system_status = (0, none);
  quote = λ s. s;
}

abbrev start_web : Request
start_web = record {
  id = str "7";
  command = str "start";
  service = str "web";
  args = [];
  payload = [];
}

dispatch_command-Answers_example :
    Answers start_web
      (error_of quiet (some counting) start_web 0)
      (dispatch_command quiet (some counting) start_web 0).1
dispatch_command-Answers_example = dispatch_command-Answers quiet (some counting) start_web 0

dispatch_command-requested_example :
    (dispatch_command quiet (some counting) start_web 0).0
    ≡ perform (some counting) (requested start_web) 0
dispatch_command-requested_example = dispatch_command-requested quiet (some counting) start_web 0
