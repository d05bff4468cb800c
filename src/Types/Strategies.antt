-- ===== src/Types/Strategies.antt =====
-- The strategies of supvisors/ttypes.py.

pub data StartingStrategies : Type 0 where
  config less_loaded most_loaded local less_loaded_node most_loaded_node : StartingStrategies

pub data RunningFailureStrategies : Type 0 where
  continue restart_process stop_application restart_application shutdown restart :
      RunningFailureStrategies

pub data StartingFailureStrategies : Type 0 where
  abort stop continue : StartingFailureStrategies

pub data AuthorizationTypes : Type 0 where
  unknown authorized not_authorized inconsistent : AuthorizationTypes

pub data DistributionRules : Type 0 where
  all_instances single_instance single_node : DistributionRules

pub data ConciliationStrategies : Type 0 where
  senicide infanticide user stop restart running_failure : ConciliationStrategies

pub data ProcessRequestResult : Type 0 where
  in_progress success failed timed_out : ProcessRequestResult
