-- ===== src/Examples/Messages.antt =====
-- Messages, Files and Bots that are taken out, at a concrete database.
use buildbee.Base.{◌≡◌, refl, true, none, some, List, [], ◌∷◌, keep, exists, first, map}
use buildbee.Base.Result.{Result, ok, err}
use buildbee.Text.{
  Text, bytes, text_eq, check_text, trim_space, rune_count, drop_spaces, space_width,
  space_width_back,
}
use buildbee.Models.Records.{Member, Message, Channel, File, human, open_channel}
use buildbee.Store.{
  Work, ◌>>=◌, with_result, refuse, found, pure, attempt, changes_work, fail, gets, on_nil, each,
  new_id, or_none,
}
use buildbee.Store.Keeps.{returned}
use buildbee.Store.Keeps.Attach.{attached_row, AllFree, attach_files_lem}
use buildbee.Store.Rows.Keyed.{IsKeyed}
use buildbee.Store.Rows.Picked.{Distinct}
use buildbee.Store.Tables.{
  attach_files, attachable, file_key, attached, message_key, get_message, get_channel, get_project,
  member_for_person, allows, edit_message, close_run_decisions, insert_activity, get_member,
  get_person, join_person,
}
use buildbee.Core.Work.{
  Actor, system, open_space, emit, run_event, join, log_activity, member, who_of,
}
use buildbee.Core.Chat.Changes.{change_message, own_message, insider}
use buildbee.Core.Chat.Changes.Own.{IsOwn}
use buildbee.Core.Chat.Changes.Edit.{
  edited, edited_event, edited_at_all, with_event, change_message_lem,
}
use buildbee.Core.Members.{after_removal, run_stopped}
use buildbee.Core.Members.Gone.{EndsAs, after_removal_lem}
use buildbee.Store.Rows.{find_row, update_row, update_where}
use buildbee.Store.Runs.{stop_bot_runs, append_run_event, change_run, stopped}
use buildbee.Store.Inserts.{insert_row}
use buildbee.Core.Queue.{acting, run_actor}
use buildbee.Core.Decide.{run_ended}
use buildbee.Models.Status.{same_status}
use buildbee.Examples.Sample.{db, start, builder, going_run}

abbrev ann : Member
ann = record {
  id = bytes "m";
  project_id = bytes "p";
  person_id = bytes "ann";
  kind = human;
  display_name = bytes "Ann";
  role = [];
  instructions = [];
  agent = [];
  left_at = none;
  created_at = 1;
}

abbrev hello : Message
hello = record {
  id = bytes "1";
  seq = 1;
  channel_id = bytes "c";
  project_id = bytes "p";
  member_id = bytes "m";
  body = bytes "Helo";
  thread_id = [];
  reply_count = 0;
  last_reply_at = none;
  task_id = [];
  edited_at = none;
  deleted_at = none;
  created_at = 2;
}

abbrev general : Channel
general = record {
  id = bytes "c";
  project_id = bytes "p";
  name = bytes "general";
  kind = open_channel;
  locked = true;
  members = [];
  archived_at = none;
  created_at = 1;
}

abbrev file_of : Text → Text → File
file_of id message_id = record {
  id = id;
  channel_id = bytes "c";
  message_id = message_id;
  uploader_person_id = bytes "ann";
  name = bytes "plan.txt";
  size = 4;
  blob_key = id;
  created_at = 2;
}

abbrev office : Work
office = record start {
  st = record db {
    members = ann ∷ [];
    channels = general ∷ [];
    messages = hello ∷ [];
    files = file_of (bytes "f") [] ∷ file_of (bytes "g") (bytes "0") ∷ [];
  };
}

abbrev writer : Actor
writer = record { person_id = bytes "ann"; agent = []; bot_id = []; name = bytes "Ann" }

abbrev outcome : {A : Type 0} → A → Result (A × Work) → A × Work
outcome a (ok r) = r
outcome a (err e) = (a, office)

abbrev edit : Message × Work
edit = outcome hello (change_message writer (bytes "1") (bytes " Hello ") office)

edit_returns : change_message writer (bytes "1") (bytes " Hello ") office ≡ returned edit.0 edit.1
unfolding change_message ◌>>=◌ with_result check_text trim_space rune_count own_message refuse
    get_message found text_eq get_channel open_space get_project pure insider attempt
    member_for_person exists first emit find_row update_row allows edit_message changes_work fail
    gets on_nil drop_spaces space_width space_width_back
edit_returns = refl

change_message_example :
    (text : Text) × (m : Message) × (check_text (bytes " Hello ") true 32000 ≡ ok text)
    × (find_row message_key (bytes "1") office.st.messages ≡ some m)
    × IsOwn writer office m
    × (edit.0 ≡ edited text 50 m)
    × (edit.1 ≡ with_event (edited_event edit.0) (edited_at_all m.id text 50 office))
change_message_example =
    change_message_lem writer (bytes "1") (bytes " Hello ") office edit.1 edit.0 edit_returns

-- One File is waiting, and the other belongs to a message.
abbrev carried : List File × Work
carried = outcome [] (attach_files (bytes "f" ∷ []) (bytes "1") (bytes "ann") (bytes "c") office)

carried_returns :
    attach_files (bytes "f" ∷ []) (bytes "1") (bytes "ann") (bytes "c") office
    ≡ returned carried.0 carried.1
unfolding attach_files ◌>>=◌ gets changes_work refuse attachable text_eq pure
carried_returns = refl

office_files-IsKeyed : IsKeyed file_key office.st.files
unfolding find_row text_eq
office_files-IsKeyed = (refl, (refl, tt))

attach_files_example :
    Distinct (bytes "f" ∷ [])
    × AllFree (bytes "f" ∷ []) (bytes "ann") (bytes "c") office
    × (carried.0
        ≡ map
            (attached (bytes "1"))
            (keep (attachable (bytes "f" ∷ []) (bytes "ann") (bytes "c")) office.st.files))
    × ((i : Text)
        → find_row file_key i carried.1.st.files
          ≡ attached_row (bytes "f" ∷ []) (bytes "1") i (find_row file_key i office.st.files))
attach_files_example =
    attach_files_lem (bytes "f" ∷ []) (bytes "1") (bytes "ann") (bytes "c") office carried.1
      carried.0 office_files-IsKeyed carried_returns

-- The Builder is taken out while it is at work.
abbrev remover : Actor
remover = system (bytes "cleanup")

abbrev emptied : Unit {0} × Work
emptied = outcome tt (after_removal remover none builder start)

emptied_returns : after_removal remover none builder start ≡ returned emptied.0 emptied.1
unfolding after_removal ◌>>=◌ gets stop_bot_runs each text_eq same_status run_stopped run_event
    append_run_event new_id change_run stopped changes_work pure emit run_ended close_run_decisions
    first keep acting run_actor join log_activity member who_of insert_row find_row update_row
    update_where insert_activity get_member get_person join_person member_for_person fail found
    on_nil or_none
emptied_returns = refl

its_run : text_eq going_run.bot_member_id builder.id ≡ true
unfolding text_eq
its_run = refl

after_removal_example : EndsAs going_run.id emptied.1
unfolding find_row text_eq
after_removal_example =
    after_removal_lem remover none builder going_run start emptied.1 emptied.0 refl refl its_run
      emptied_returns
