-- ===== src/Lib.antt =====
-- Supvisors: what the instances of a group know of each other and of the processes they
-- supervise.
--
-- One Supvisors instance runs in each Supervisor. It receives the ticks, the process events and
-- the published state and modes of the others, follows the state of every instance and of every
-- process, and takes part in the choice of a Master. The parts and the files that model them:
--
-- Prelude: the shared names, lists, Python's dict as an association list (Prelude/Dict), its set
-- of names as a list (Prelude/NameSet), the order of names (Prelude/Order), sorting
-- (Prelude/Sorting), whole numbers (Prelude/Integers).
--
-- Types: the enumerations of supvisors/ttypes.py, and the process states of Supervisor with the
-- codes of ProcessState.java (Types/ProcessStates).
--
-- Process: supvisors/process.py. Process/Rules has ProcessRules and check_dependencies;
-- Process.antt the data of ProcessStatus; Process/Status update_status with the synthesis of one
-- state out of the reports of the instances; Process/Events add_info, update_info, force_state,
-- update_times, update_disability, invalidate_identifier and remove_identifier; Process/Commands
-- the queries. Process/Synthesis and Process/Invariant have the lemmas and the invariant,
-- Process/History the calls in any order as a step relation.
--
-- Mapper: supvisors/internal_com/mapper.py. Mapper.antt has the data of SupvisorsMapper,
-- Mapper/Network the interfaces, addresses and networks with their payloads, Mapper/InstanceId
-- SupvisorsInstanceId, Mapper/Identify how the instances become known, Mapper/Filter which names
-- stand for identifiers. Mapper/RoundTrip has the proof on the payloads, Mapper/Known,
-- Mapper/History, Mapper/Reach and Mapper/Sound those on the identifiers.
--
-- Application: supvisors/application.py. Application.antt has the data of ApplicationStatus and
-- of HomogeneousGroup, Application/Rules ApplicationRules, Application/Formula the status formula
-- on the trees of Python's ast, Application/Groups the assignment of the @ and # rules,
-- Application/Sequences the start and stop sequences, Application/Status state and failures,
-- Application/Candidates the identifiers where an application can start, Application/Upkeep the
-- processes that come and go. The process objects stand in the map of processes only, the groups
-- and the sequences hold their names.
--
-- StateModes: supvisors/statemodes.py. StateModes.antt has the records, StateModes/Views the
-- methods of StateModes, StateModes/Updates the setters, update_instance_state and the
-- publication, StateModes/Stability evaluate_stability and the tests on it, StateModes/Master
-- check_master and select_master. StateModes/Publication and StateModes/Election have the proofs.
--
-- Instances: supvisors/instancestatus.py. Instances/Times has SupvisorsTimes, Instances/Status
-- SupvisorsInstanceStatus with its transition table.
--
-- Context: supvisors/context.py, the part that follows the instances. Context/Setter has the
-- setter of an instance's state (supvisors/instancestatus.py) with the update of the state and
-- modes that it triggers, Context/Handshake invalidate, on_authorization, activate_checked and
-- what load_processes does without processes, Context/Discovery on_discovery_event with the
-- methods of the mapper that it calls, Context/Ticks the tick events and the periodic check,
-- Context/Failures on_instance_failure and invalidate_failed. A handler returns a Result, which
-- keeps the changes made before an exception. Context/Handlers lists the calls that set the state
-- of an instance or add one, Context/Effect and Context/Discovered say what the setter and a
-- discovery can do, Context/Closure carries it over to every call, Context/Known has the
-- instances that the mapper knows, and Context/Transitions and Context/Mirror draw the
-- conclusions.
--
-- Fsm: supvisors/statemachine.py. Fsm.antt has the machine and the interface of the jobs
-- (Starter, Stopper, RunningFailureHandler and the conciliation of supvisors/commander.py and
-- supvisors/strategy.py), whose calls raise nothing here. Fsm/Checks has _check_instances and
-- _check_consistence of the state classes, Fsm/Next their next, enter and exit, and Fsm/Safety
-- what leads out of ELECTION.
--
-- Strategy: supvisors/strategy.py. Strategy/Loads has the loads of the instances and nodes, with
-- what supvisors/context.py and supvisors/instancestatus.py compute for it, Strategy/Starting the
-- starting strategies, Strategy/Failures RunningFailureHandler, Strategy/Conciliation the
-- conciliation strategies. Strategy/Choice, Strategy/Best and Strategy/Bounds have the proofs on
-- the starting strategies, Strategy/Priority, Strategy/Refinement, Strategy/Supersede and
-- Strategy/Jobs those on the handler. Starter and Stopper are the calls made of them, as values
-- in their order.
--
-- Commander: supvisors/commander.py. Commander/Commands has ProcessStartCommand and
-- ProcessStopCommand with their events and timeouts, Commander/Jobs ApplicationJobs over the
-- interface JobKind of what its two classes redefine, Commander/Events its reactions to events
-- and lost instances, Commander/Kinds the two classes as values of JobKind, and
-- Commander/Distribution the method before of ApplicationStartJobs, for applications on one node
-- or one instance. Commander/Picking, Commander/Groups and Commander/Progress have the proofs
-- over any JobKind that keeps its promises, Commander/Kinds/Lawful those promises for the two
-- classes, and Commander/Whole what before does for a single instance.
--
-- Scenarios: test data and examples.
--
-- How the code is read. Objects are records and a method that changes its object returns the new
-- one. An exception is `none` in Process, StateModes, Mapper, Application, Strategy and
-- Commander, `raised` in Context and `failed` in Fsm. Times are whole numbers in a unit small
-- enough, and what time.monotonic() and time.time() return is an argument. An object that the
-- source reaches by reference, such as an instance status or a process, is reached by its key. A
-- loop over a dict is a recursion over its keys, and the only fuel is that of
-- ApplicationJobs.next, the number of the planned sequences: each of its calls takes one.
-- Supervisor is not part of the repository: what is used of it is the record Supervisor, with the
-- documented lists of states as the hypothesis IsSupervisor. Logs and the messages to the
-- external publisher are left out.
--
-- Not modelled: Commander, Starter and Stopper over the applications, which call each other when
-- an application ends, and the starter model (supvisors/commander.py); FiniteStateMachine with
-- its set_state loop and event methods, which run those jobs (supvisors/statemachine.py); the
-- parser of the rules, the listener and the XML-RPC interface, and all input and output. Of
-- supvisors/context.py, load_processes with the processes of an instance,
-- on_identification_event, on_process_removed_event, on_process_disability_event and
-- on_process_state_event: they join the applications and the mapper to the Context, and assign no
-- state of an instance.
pub mod Prelude
pub mod Types
pub mod Process
pub mod Mapper
pub mod Application
pub mod StateModes
pub mod Instances
pub mod Context
pub mod Commander
pub mod Fsm
pub mod Strategy
pub mod Scenarios
