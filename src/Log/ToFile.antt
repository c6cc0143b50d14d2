-- ===== src/Log/ToFile.antt =====
-- src/log/Log.cpp, Appender.h and LogFile.cpp: a log statement up to the files.
use generic_server.Files.Rotate
