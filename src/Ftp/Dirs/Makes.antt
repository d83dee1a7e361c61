-- ===== src/Ftp/Dirs/Makes.antt =====
-- How the client makes a directory that is missing, in ftp/ftpApi.c.
use cctvmonitor.Base.{◌++◌, Bytes, codes}
use cctvmonitor.Ftp.{crlf}

abbrev pub cwd : Bytes → Bytes
cwd dir = codes "CWD " ++ (dir ++ crlf)

abbrev pub mkd : Bytes → Bytes
mkd dir = codes "MKD " ++ (dir ++ crlf)
