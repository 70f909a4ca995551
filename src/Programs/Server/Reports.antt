-- ===== src/Programs/Server/Reports.antt =====
-- The receiver reports of examples/server.cpp, whatever its sockets brought.
use mprtplib.Double.{Double}
use mprtplib.World.{World}
use mprtplib.Session.Poll.{Session}
use mprtplib.Source
use mprtplib.Source.{Source}
use mprtplib.Receiver.{Receiver}
