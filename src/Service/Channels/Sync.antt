-- ===== src/Service/Channels/Sync.antt =====
-- internal/service/messaging.go: what SyncChannel returns.
use meshserver.Model.Database.{Database}
