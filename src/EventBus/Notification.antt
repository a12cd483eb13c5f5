-- ===== src/EventBus/Notification.antt =====
-- Who is called when an event is published.
use autoforge.Common.Texts.{text_eq}
use autoforge.EventBus.{EventBus}
