-- ===== src/Api/Topic.antt =====
-- `topic_t` and `ros_node_t` of api.h: what a node knows of a topic, as subscriber or publisher.
use stros.Prelude.{Option, ℤ, Bool}
use stros.CString.{CString}
use stros.Dictionary.{Buckets}

-- `TOPIC_ACTIVE`, `TOPIC_DOWN` and `TOPIC_REFRESH`
pub data Status : Type 0 where
  active : Status
  down : Status
  refresh : Status

-- `topic_t`, less its handler; `none` stands for NULL, and `data_ok` for `TOPIC_DATA_OK`. The data
-- of a topic is that of a string message, the one type the program sends.
pub record Topic : Type 0 where
  pub callerid : CString
  pub topic : CString
  pub type : CString
  pub uri : Option CString
  pub port : ℤ
  pub status : Status
  pub data_ok : Bool
  pub payload : Option CString

-- `ros_node_t`, less its api.
pub record RosNode : Type 0 where
  pub id : CString
  pub master_uri : CString
  pub master_port : ℤ
  pub subscribers : Option (Buckets Topic)
  pub publishers : Option (Buckets Topic)
