-- ===== src/Tests/Records.antt =====
-- Reading the log of a session, from its worker or from the disk: src/sub.rs.
use babysit.Prelude.{
  ◌≡◌, refl, true, false, [], ◌++◌, Option, none, some, Bytes, codes, length, inr,
}
use babysit.Control.{World, Effects, dispatch, late}
use babysit.Log.Slice.{contents}
use babysit.Hub.{Row}
use babysit.Requests.{Link, request, connect_with_retry, connect_from}
use babysit.Requests.Logs.{read_log, Options, Found, object, emit_log, log_command}
use babysit.Requests.Logs.Same.{wanted, Answers, log_command-Answers}
use babysit.Requests.Logs.Gap.{snapshot_skips}

abbrev unstripped : Bytes → Bytes
unstripped b = b

abbrev no_row : Bytes → Option Row
no_row line = none

abbrev a_log : Bytes
a_log = codes "one\ntwo\nthree\n"

abbrev late_output : Bytes
late_output = codes "four\n"

abbrev no_effects : Effects
no_effects = record { input = []; size = none; restarts = 0; kills = 0; generation = 0 }

abbrev a_worker : World
a_worker = record {
  recorded = none;
  output_bytes = 14;
  read_log = read_log unstripped (contents a_log);
  rendered = [];
  screen_seq = 0;
  loop_alive = true;
  answer = late;
  races = [];
  race_deadline = 0;
}

abbrev a_link : Link
a_link = record {
  find = λ i. record {
    socket = true;
    legacy_socket = false;
    error = [];
    status = none;
    owner_alive = none;
  };
  exchange = λ r. some (dispatch a_worker r no_effects).0;
  status_after = none;
}

abbrev last_two : Options
last_two = record {
  tail = some 2;
  grep = some (λ line. true);
  raw = true;
  since = none;
  follow = false;
  json = true;
  timestamps = false;
}

abbrev found : Found
found = record {
  link = a_link;
  file = contents a_log;
  size = length (a_log ++ late_output);
  sidecar = [];
  is_finished = false;
  rounds = [];
}

log_command-Answers_example :
    log_command unstripped no_row last_two found
    ≡ emit_log true found (wanted unstripped last_two a_log) (length (a_log ++ late_output))
unfolding Answers request connect_with_retry connect_from
log_command-Answers_example =
    log_command-Answers unstripped no_row last_two found refl refl
      (inr (a_worker, no_effects, λ tail raw. refl, refl))

abbrev found_later : Found
found_later = record found { file = contents (a_log ++ late_output) }

snapshot_skips_example :
    (log_command unstripped no_row last_two found
      ≡ object (wanted unstripped last_two a_log) (length (a_log ++ late_output)) false)
    × (log_command unstripped no_row
          (record last_two { since = some (length (a_log ++ late_output)) })
          found_later
        ≡ object [] (length (a_log ++ late_output)) false)
unfolding Answers request connect_with_retry connect_from
snapshot_skips_example =
    snapshot_skips unstripped no_row last_two found found_later a_log late_output refl refl refl
      refl (inr (a_worker, no_effects, λ tail raw. refl, refl)) refl refl refl
