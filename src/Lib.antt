-- ===== src/Lib.antt =====
-- aigenora: the protocol-driven runtime for work between agents. This library models parts of
-- the Python client (src/aigenora) and proves what makes them correct.
--
-- The parts and the files that model them:
-- - Prelude, Prelude/Tests, Lists, Int, Results, Exec: shared names, Boolean tests, lists and
--   integers over the native numbers, results of calls that may raise, and methods of an object
--   that may raise (its state survives the exception).
-- - Ceremony/State: aigenora/ceremony/state.py. `transition` and `replay` are the functions of
--   that name; `replay_event` is the loop's body; an event is a JSON object whose missing fields
--   are `none`, and `text_of`, an argument, is Python's str of a value that is no text. Legal
--   and Replay hold the proofs.
-- - Collab/Store: aigenora/collab/store.py. A `Store` is the tables as lists of rows in
--   insertion order, with the readings of the clock; each method of TaskStore is a function of
--   the same name that runs its statements with nothing between them, as where calls do not
--   overlap. Rows, States and Tables hold the rows, the state machine and the SQL statements;
--   Laws, Numbering, Transitions, Insertion and History the proofs; Race takes two calls that
--   overlap apart (`append_behind` is append_event behind its read).
-- - Collab/Dispatch: aigenora/collab/service.py over that store: `dispatch`, `after_probe`,
--   `after_submit` and `try_dispatch` are _try_dispatch, `dispatch_round` is one round of
--   _dispatch_loop, `recover_task` the loop's body of recover_interrupted_tasks,
--   `cancel_request` is _on_cancel_request. The adapter is another process: its answers and
--   exceptions, and those of build_package, are arguments; the diagnostics in memory are left
--   out.
-- - Proto/JsonDelta: aigenora/proto/json_delta.py, the delta by which a realtime state is sent
--   and replayed. A value is the JSON that Python holds (Json, Dict); `diff`, `diff_list`,
--   `validate_path` and the rest are the functions with those names behind an underscore;
--   `update_at` is _resolve_value with what the caller then does to the value in place.
--   `delta_ops` is make_json_delta before its operations become dictionaries (`to_wire`). Apply
--   is apply_json_delta; Lists, Splices, Objects, Perform, Diff, Leads, Reaches, Wire and
--   Equality hold the lemmas, Roundtrip the results.
-- - Proto/Poker: aigenora/proto/poker.py. Pots models build_side_pots and
--   normalize_uncalled_contributions: contributions are the JSON object of the hook, and amounts
--   native numbers once `check_amounts` has passed them. Hands models evaluate_five and its
--   child Choice best_poker_hand: `validated` is _validated_ranks_and_suits, `rank_five` is
--   evaluate_five behind the validation, `text_of` is Python's str of a JSON value. Loops are
--   structural.
-- - Proto/Mahjong: the winning shapes of aigenora/proto/mahjong.py. A tile code is its place in
--   the order of _tile_sort_key, and a Counter a function on the 34 places; `can_form_melds` is
--   _can_form_melds, by recursion on the melds needed, without its cache. Melds says what a
--   split into melds is; Search and Shapes hold the results.
-- - Proto/CardGames: aigenora/proto/card_games.py, following suit and the winner of a trick;
--   `lead_of` is Python's max over the indices, the first of the greatest keys. Max is about
--   that loop, Trick and Follow about the rules.
-- - Proto/Group: aigenora/proto/group.py. The file itself holds the wire's types and checks
--   (_validate_json, normalize_members, the states of a checkpoint). What the code takes from
--   its environment, json.dumps, SHA-256, Ed25519 and the str, int and lower of Python, are the
--   fields of one record, `Codec`, an argument of all that uses it. Group/Checkpoints has the
--   checkpoints and their certificates.
-- - Proto/Group/Replica: `apply` is GroupReplica.apply, in the stages that the method's text has
--   (Decode for _decode_checkpoint and _decode_view, Apply for the whole), and `advance_epoch`.
--   Verified, Verifies and Chain hold the proofs. A replica is the record of the object's
--   fields; a method returns its state also when it raises.
-- - Proto/Group/Authority: GroupAuthority. Build and Frames build the envelopes of a frame,
--   Inputs is apply_input, Membership the methods that change the members and acknowledge,
--   Bootstraps the envelopes for a late member. The game's hook is an argument. `trim` runs on
--   fuel, the length of the history, and each round drops one entry of it. Accepted,
--   Acknowledged and History hold the proofs.
-- - Proto/Group/Sync: authority and replica together. The file itself says what a replica in
--   step is; Envelope, Certificate, Frame, Planned, Plans, Members, Delivery, Live, Delivered,
--   Refines and Inputs follow a frame from the hook to the members; Bootstrap and Bootstrapped
--   do so for bootstraps, and Lost has the inputs whose frame cannot be built. Group/Sample is a
--   group of two members, Runs what it computes, and Tests and EdgeTests the theorems at it.
-- - Not modelled: of proto/group.py the restoring from a checkpoint, GroupConfig.from_spec and
--   the routes to peers; the session engines, the files and loops of groups and of the realtime
--   mode, ceremony boards and tallies, the admission handshake, artifacts and inputs of the task
--   store, and the mental card protocols; and subprocesses, sockets, REST calls, the web console
--   and the command line, which are input and output. Loops are structural recursion, but for
--   `trim`; `first_from` of Proto/Mahjong and the sums beside it go over the 34 tiles, which are
--   all.
pub mod Prelude
pub mod Ceremony
pub mod Collab
pub mod Proto
