-- ===== src/Lib.antt =====
-- Verification of the monitor agent (Monitor/Monitor): a client that connects to proxies over TCP and
-- UDP, asks them for rooms and shows the users of the rooms on a wall of fifteen screens.
--
-- The parts and how they interact. A proxy sends messages over TCP; the event thread cuts them out of
-- the byte stream (Framing), reads their fields (Wire) and hands them to a thread that changes proxies,
-- rooms and users (Proxies, Rooms, Users). The main thread places users on screens (Wall), page by page
-- when a room is watched (Watch), and moves the windows of the screens (Layout). Rooms that are
-- destroyed take their users off the wall, and what the wall shows is asked of the proxies.
--
--   Base            names of the libraries, tests, lists, machine words and ordered maps that all files share
--   Wire            Com.h (serialize, unserialize, pj_ntoh_assign), AvsProxyStructs.h, Scene/Parameter.h and
--                   the constructors of the parameters in Scene/AvsProxyScene/src
--   Framing         ScreenMgr::EventOnTcpRead of ScreenMgr.cpp, and the buffer of AvsProxy.h
--   Store           the shared objects of TitleRoom.h, Screen.h, AvsProxy.h and Config.h behind pointers,
--                   the monad of the methods, and rules for what methods keep (Store/Keeps, Store/Reaches)
--   Users           User of TitleRoom.cpp, and GetUser, ConnectUser and DisconnectUser of Screen.cpp
--   Rooms           TitleRoom of TitleRoom.cpp
--   Proxies         AvsProxy of AvsProxy.cpp
--   Wall            LinkScreenUser, UnlinkScreenUser and CleanScreens of ScreenMgr.cpp
--   Layout          ChangeLayout, Adjest, GetSuitedSize and the five layouts of ScreenMgr.cpp
--   Sockets         the functions of Com.cpp that open sockets, and RTPSession.cpp
--   Video           VideoScene, OnRxVideo and decode_vid_frame of Screen.cpp
--   Reply           ParseHttpResponse of ScreenMgr.cpp
--   Connections     the table of the proxies of ScreenMgr.cpp and DiscProxyScene.cpp, in a state of its own
--                   around the store
--   Queues          MessageQueue.hpp and InternalThread of PoolThread.hpp
--   Nodes           Node.cpp and TitleNode.cpp, the tree that leads to the rooms, and its titles (TitlesCtl.cpp,
--                   Title.cpp)
--   Watch           the pages of WatchsList.cpp, and OnShowPage of TitleRoom.cpp
--   Traverse        Begin, End, OnTraverse and AddRoom of WatchsList.cpp, OnWatched of TitleNode.cpp and
--                   TitleRoom.cpp, BelowWatchedNode of Title.cpp
--   Dialog          the messages and handlers of MonitorDlg.cpp, the events of the windows of Screen.cpp,
--                   Title.cpp and TitleRoom.cpp, and runs of the whole program (Dialog/Running)
--   Scenes          TcpParamScene, UdpParamScene, EventOnUdpRead and GetProxy of ScreenMgr.cpp, and
--                   Maintain of the scenes
--
-- Definitions keep the names of the source in snake case: proxy_link_room is AvsProxy::LinkRoom, and
-- link_room is the request. A method is a function from the store to an outcome: it returns, locks a
-- mutex that its thread holds (deadlock), follows a null or dangling pointer or leaves an array (fault),
-- or the fuel of a loop of the model ran out (stuck). A pointer is a number, a null pointer is none.
-- Integers are natural numbers with the wrap-around of their width written out, and signed ones are
-- their bit patterns. A method runs as one step, also where no lock of
-- the source keeps another thread out of the middle of it; only Queues takes the steps of a thread apart.
--
-- Parameters. The byte order functions of the network library are the record NetOrder, with what their
-- documentation promises; x86_order is an instance. The status of each send is a function of the
-- packet and of those handed to the network before, also those whose send failed: `sent` lists them all. The jitter buffer is the record JitterBuffer, the codec a function of what
-- it got before and of the frames.
--
-- Fuel. A round of the loop of EventOnTcpRead takes a byte at least or stalls for ever, so the pending
-- bytes bound the rounds; the loops of the rooms information take a byte each; the loop of OnDestory has
-- one round per user. The walk through the nodes takes one for each level, and the loop of decode_vid_frame
-- one for each place of the jitter buffer and one more. The results below show where the fuel is enough.
--
-- Not modelled: windows, menus and drawing (MFC, SDL), codecs and RTP (pjmedia, ffmpeg), the HTTP client
-- and the XML parser, which are libraries or glue to them; the heap of the threads of PoolThread.hpp.
pub mod Base
pub mod Wire
pub mod Framing
pub mod Store
pub mod Users
pub mod Rooms
pub mod Proxies
pub mod Wall
pub mod Layout
pub mod Queues
pub mod Sockets
pub mod Reply
pub mod Video
pub mod Connections
pub mod Nodes
pub mod Watch
pub mod Traverse
pub mod Scenes
pub mod Dialog
