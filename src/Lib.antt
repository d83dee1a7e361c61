-- ===== src/Lib.antt =====
-- The shared state and the train messaging of the CCTV monitor of a driver's cab.
--
-- The program shows the cameras of a train. Its core is C: state/state.c holds what every part shares
-- (cameras, NVRs, disks, warnings, sound settings) and reads it from configuration files through
-- state/fileConfig.c; pmsg/pmsgcli.c keeps a TCP connection to each NVR, frames the messages on it and
-- queues those received; pmsg/pmsgproc.c listens to the multicast groups of the train, writes what it
-- hears into the shared state, and sends commands to the loudspeakers, the video source and the displays;
-- ftp/ftpApi.c copies recordings from and to the FTP server of an NVR, whose file names are in GB2312.
-- The operator interface (cctv/) calls all of these.
--
-- Where the models are:
--   Base: the names the components share; Base/Tests, Lists, CString, Search: tests, lists, byte strings
--     and their searches with native indices; Base/Int, Decimal, Bits: `int`, `%d` and `atoi`, bits;
--     Base/Passes: a Boolean test at every number below a bound.
--   Pmsg/Frame (pmsg/pmsgcli.c: GetMsgDataEcc, PMSG_SendPmsgData, the loop of CliProcessThread that
--     takes messages out of the bytes received); proofs in Pmsg/Frame/Stream and Receive.
--   Pmsg/Connection (the rest of CliProcessThread, PMSG_CreateConnect, PMSG_GetConnectStatus,
--     PMSG_SendRawData, PMSG_GetDataFromPmsgQueue, PMSG_DestroyConnect); proofs in Pmsg/Connection/Steady and Stale.
--   Queue (CreatePmsgQueue, PutNodeToPmsgQueue, GetNodeFromPmsgQueue, DestroyPmsgQueue, and their
--     copies in ftp/ftpApi.c); proofs in Queue/Chain, Fifo and Destroy.
--   Proc/Crc (pmsg/pmsgproc.c: GetCRC8), Proc/Commands (StartNoiseMonitor to SendHeartInfo),
--     Proc/Broadcast (ParseBroadcastSysData, ParseVideoSourceData), Proc/Thread (MultcastRecvThread);
--     proofs below each.
--   Config (state/fileConfig.c: ModifyParam, ReadParam, DeleteParam); proofs in Config/Lines, Edit,
--     Written, RoundTrip, Other and Delete.
--   Log (log/log.c: LOG_Init, LOG_WriteLog, LOG_ReadLog, LOG_FsyncFile); proofs in Log/Line, Keep, Run, ReadBack.
--   Gb2312 (the functions of ftp/gb2312_utf8.c and the two conversions of ftp/ftpApi.c); proofs in
--     Gb2312/RoundTrip, Bounds and Whole.
--   Ftp (ftp/ftpApi.c: FTP_SendCmd, FTP_RecvResponse, FTP_CmdCtrl), Ftp/Passive (FTP_Explain227Cmd,
--     displace_char), Ftp/Session (the log-in, QUIT, SIZE, TYPE, REST and the data connection), Ftp/Dirs
--     (FTP_CheckdirAndMakedir and its helpers), Ftp/Client (FTP_CreateConnect to FTP_FileUpLoad, the calls
--     of the operator interface), Ftp/Download and Ftp/Upload (the two threads); proofs in Ftp/Reply and
--     below each.
--   Screen (cctv/cctv.cpp: GetNextSingleVideo, GetNextFourVideo, videoPollingfunction and the slots that
--     choose a camera), Screen/Style (PlayStyleChangedfunc and the slots that call it); proofs in Screen/Order,
--     Restart and Turns.
--   Records (cctv/recordmanage.cpp: the list of recordings), Dates (cctv/timeset.cpp, the date buttons of
--     cctv/sysmanage.cpp, GetMaxDay of cctv/comm.cpp); proofs in Records/Fill, Dates/Valid and
--     Dates/Dialog.
--   State (state/state.c): State/Video, Nvr, Warn, Audio, Device and Init are the getters and setters and
--     the start-up, named after the C functions in lower case; proofs below each (the sound settings over a
--     restart: State/Audio/Keys, Parts, Whole and Survive). State/Sample is a state for the tests.
--
-- A `struct` is a record, an array of bytes a list of its length, a `char` of the target unsigned. The
-- globals of state/state.c are one record, which each operation takes and returns. Files are a function
-- from paths to contents. What sockets, `malloc`, `select`, `recv` and the clock return is an argument;
-- what is sent, logged or queued is a list of events in order. A read or write outside an array is `none`
-- where the code lets it happen. The FTP client is written in a monad whose state is the answers that the
-- coming calls of `send`, `recv` and `connect` give, a list for each, and what was sent. Each call of the
-- queue holds its mutex throughout and is one step.
--
-- The loops over bytes received and over a file's text recurse on the length of what is left, which every
-- round shortens, so the fuel given is enough; destroying a queue takes one round more than it has
-- nodes. FTP_SendCmd waits at most 10000 times.
--
-- Not modelled: the sockets (pmsg/multicast.c), threads and mutexes as such, shell commands (USB search),
-- the windows and players of the operator interface, and cctv/NVRMsgProc.cpp, of which no other file calls a
-- function. The conversion table of ftp/gb2312_utf8.c, some 11000 lines of data, is an argument. The
-- carriage number is read from a dotted address. Two loops of ftp/ftpApi.c move the rest of a text to the
-- front by a strcpy within one array; the models of both, behind_commas and behind_nth, move it as memmove
-- would. Where the FTP client converts a name, the malloc of UTF_8ToGB2312 succeeds.
pub mod Base
pub mod Config
pub mod Dates
pub mod Ftp
pub mod Gb2312
pub mod Log
pub mod Pmsg
pub mod Proc
pub mod Queue
pub mod Records
pub mod Screen
pub mod State
