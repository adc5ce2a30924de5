-- ===== src/Lib.antt =====
-- A verification library for STRos, a small client of ROS in C: nodes that call one another and the
-- master by XML-RPC over HTTP, and send messages over TCPROS connections.
--
-- Parts and files, by the file of the repository's root that they model:
--   list.c, list.h: ItemList. A list pointer is `Items`, `null` for NULL; a function on `list*`
--     returns the new head. Children: Access (list_size, list_at), Put, Remove, Split, Free, Print.
--   dictionary.c, dictionary.h: Dictionary. A table is the list of its chains, a chain the list of
--     its nodes. Children: Chain, Lookup, Validity, Iteration, History.
--   utils.c: Utils. Hash, Url, Trim, Match, Mime, each with its laws in a child (Match/Pattern and
--     Match/Regex are regex_match and its two expressions); Format is __s, __time and server_time;
--     Files is _exist, is_dir, is_file and removeAll, its children Tree the trees that directories
--     stand for, Directory what is asked of the operating system, Remove, Targets and Kinds.
--   rpc.c, rpc.h: Rpc. Xml is what is read of a document; Parse is parse_rpc_value; Generate is
--     item_to_xml and list_to_xml_params; Http is rpc_read_buf, rpc_read_line, decode_rpc_data and
--     the message patterns; Markup, Plain and RoundTrip relate texts, trees and values.
--   request.c, response.c: Request. Call and Reply are the functions of the two files, Exchange is
--     send_post_request; CallRoundTrip, Params and RoundTrip relate the two sides of a call.
--   api.c, api.h: Api. Types is md5sum_of and the tables, Topic the structures, Header
--     gen_tcp_header_for and verify_ros_header, Data the string messages, Handler
--     xml_rpc_api_handler, publisherUpdate, extract_url and requestTopic. Recv is recv as api.c calls
--     it, Connection the headers of publish_tcp_data and all of tcp_ros_request (Greeting, Delivery
--     and Transfer relate the two ends), Stream the threads of publish_tcp_data over a shared topic
--     (Bound, Stop, Origin and Missed are about any run; Flow, Exact and Arrive follow a text to the
--     callback).
--   stros.c: Node. Accept is stros_accept_request, Config the configuration, Topics subscribe_to,
--     create_publisher and publish (Program is sequences of them), Master socket_startup and
--     unregister, Register stros_deploy_publishers and stros_deploy_subscribers, Listen
--     subscriber_listener, Serve publisher_listener and xmlprc_run, Life stros_node_deploy and
--     stros_stop (Announce goes from the calls of a program to the messages for the master, Unreached
--     is a master that is not there).
--   CString holds the functions of the C library on texts, Prelude what all parts share, and Tests
--   the runs at concrete inputs.
--
-- How they interact: a request is read by decode_rpc_data from the socket, parsed by the XML
-- library, turned into an item list by parse_rpc_value and handed to xml_rpc_api_handler, which
-- looks the topic up in a dictionary, changes it or answers by gen_rpc_response. The connection
-- header and the messages go over a second socket and are cut by split. A node that is deployed
-- calls the master once for each topic; a subscriber's listener asks the publisher's node for the
-- address of the topic and connects to it by tcp_ros_request.
--
-- Threads. Stream and Listen take the accesses of the threads to a topic one by one, in any order:
-- an event or a happening is one access, a run a list of them, and what a thread is about to do is
-- its place. The thread of a subscriber takes each of its tests and reads of the topic by itself.
-- What the outside world does (system calls, the peer of a socket, select) is data of the
-- run: Sends, Reach, Contact, StartupCalls, Poll. A loop that waits for the outside world runs over
-- the list of its rounds and says whether it has ended.
--
-- Conventions. A C string is the list of its bytes in front of the NUL. A socket is the list of the
-- bytes that it still delivers. `Run` is the outcome of C code: `ok`, or `fault` where the code
-- reaches undefined behaviour. NULL is `none` or `null`. A number is a native natural number, an
-- `int` an integer; `unsigned` wraps modulo 2 ^ 32 where the code relies on it (Utils/Hash), and
-- `char` is signed. Floating point (`atof`, `%lf`) is the parameter `Floats`, the XML library the
-- parameter `parse_xml` and the INI parser `ini_parse`; the system calls on files are the record
-- `Files`, the regular expressions the record `Regex`, and vsnprintf, localtime and asctime are
-- arguments. Theorems that need what they do have it as a hypothesis. `atoi` gives numbers of any
-- size; extract_url faults on a port that an `int` does not hold.
--
-- Fuel: header_loop has one more than the bytes of the socket, since each round with a line takes a
-- byte off, and gives `none` where it runs out; fields_loop has the size of the header, since each
-- round takes four bytes off; digits_fuel has one more than the number, since each round divides it
-- by ten. remove_all takes any fuel; the height of a tree is enough, since each call below a
-- directory has a tree that is lower.
--
-- Not modelled: get_ip_address, which asks the operating system for its interfaces and is an
-- argument; spin, which only waits; printing and logging; links in directories, which the trees
-- of Files have not; an allocation that fails within removeAll; and the vendored libraries under
-- 3rd. A receive that delivers fewer bytes than it was asked for is only the end of the socket.
pub mod Prelude
pub mod CString
pub mod Utils
pub mod ItemList
pub mod Dictionary
pub mod Rpc
pub mod Request
pub mod Api
pub mod Node
pub mod Tests
